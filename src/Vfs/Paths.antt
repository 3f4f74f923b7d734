-- ===== src/Vfs/Paths.antt =====
-- fs/vfs.c: which mount a path belongs to.
use epona_os.Base.{
  ℕ, ◌≤◌, ◌<◌, ◌≡◌, refl, ap, ◌∙◌, ◌⊎◌, inl, inr, true, false, ◌&&◌, Option, none, some, List, [],
  ◌∷◌, ◌++◌, arith, length, ltb, ◌==◌, Bool-cases,
}
use mathlib.Core.List.{Mem, mem-cons_self, mem-cons_of_mem}
use epona_os.Ring.{drop}
use epona_os.Vfs.{FileSystem, Mounts, starts_with, best_mount, rest_of, with_rest, split_path}

-- `full` is `p` with something behind it.
abbrev pub Prefix : (p full : List ℕ) → Type 0
Prefix p full = (tail : List ℕ) × (full ≡ p ++ tail)

-- No mount whose path `full` starts with has a path longer than `n`.
abbrev pub AllAtMost : (full : List ℕ) (n : ℕ) → Mounts → Type 0
AllAtMost full n [] = Unit
AllAtMost full n ((p, fs) ∷ mounts) = ((¬ Prefix p full) ⊎ (length p ≤ n)) × AllAtMost full n mounts

-- The mount that `full` belongs to: the longest one.
pub record IsLongest (full : List ℕ) (mounts : Mounts) (p : List ℕ) (fs : FileSystem) : Type 0 where
  pub mounted : Mem (p, fs) mounts
  pub longest : AllAtMost full (length p) mounts

-- `rest` is `tail` without the slash it starts with, if it starts with one.
abbrev pub NoSlash : (tail rest : List ℕ) → Type 0
NoSlash tail rest =
    (tail ≡ b'/' ∷ rest) ⊎ ((rest ≡ tail) × (¬ ((cs : List ℕ) × (tail ≡ b'/' ∷ cs))))

starts_with-split : (p full : List ℕ) → starts_with p full ≡ true → full ≡ p ++ drop (length p) full
unfolding starts_with
starts_with-split [] full h = refl
starts_with-split (x ∷ p) [] h = absurd (ground (arith, h))
starts_with-split (x ∷ p) (y ∷ full) h =
    let same : y ≡ x = ground (arith, h) in
    let more : starts_with p full ≡ true = ground (arith, h) in
    ap (λ (c : ℕ). c ∷ full) same ∙ ap (λ (cs : List ℕ). x ∷ cs) (starts_with-split p full more)

starts_with-append : (p tail : List ℕ) → starts_with p (p ++ tail) ≡ true
unfolding starts_with
starts_with-append [] tail = refl
starts_with-append (x ∷ p) tail = let more = starts_with-append p tail in ground (arith, more)

not_prefix : (p full : List ℕ) → starts_with p full ≡ false → ¬ Prefix p full
not_prefix p full h (tail, e) =
    let yes : starts_with p full ≡ true = ap (starts_with p) e ∙ starts_with-append p tail in
    absurd (ground (arith, h, yes))

NoSlash-rest_of : (tail : List ℕ) → NoSlash tail (rest_of tail)
NoSlash-rest_of [] = inr (refl, λ (cs, e). absurd (ground (arith, e)))
NoSlash-rest_of (c ∷ cs) = elim (Bool-cases (c == b'/')) [
  | inl slash ↦
      rw slash (inl (let same : c ≡ b'/' = ground (arith, slash) in ap (λ (d : ℕ). d ∷ cs) same))
  | inr other ↦ rw other (
      inr (
        refl,
        λ (ds, e). let same : c ≡ b'/' = ground (arith, e) in absurd (ground (arith, other, same)),
      ))
]

best_mount_lem :
    (full : List ℕ) (mounts : Mounts) (best : Option FileSystem) (n : ℕ)
    → ((best_mount full mounts best n ≡ (best, n)) × AllAtMost full n mounts)
      ⊎ ((p : List ℕ) × (fs : FileSystem) × (n < length p)
          × (starts_with p full ≡ true)
          × IsLongest full mounts p fs
          × (best_mount full mounts best n ≡ (some fs, length p)))
unfolding best_mount
best_mount_lem full [] best n = inl (refl, _)
best_mount_lem full ((p, fs) ∷ mounts) best n =
    elim (Bool-cases (starts_with p full && ltb n (length p))) [
      | inl better ↦
          let longer : n < length p = ground arith in
          let yes : starts_with p full ≡ true = ground arith in
          elim (best_mount_lem full mounts (some fs) (length p)) [
            | inl (e, least) ↦ inr (
              p,
              fs,
              longer,
              yes,
              record { mounted = mem-cons_self; longest = (inr (omega arith), least) },
              rw better e,
            )
            | inr (q, gs, lt, starts, l, e) ↦ inr (
              q,
              gs,
              omega arith,
              starts,
              record {
                mounted = mem-cons_of_mem (p, fs) l.mounted;
                longest = (inr (omega arith), l.longest);
              },
              rw better e,
            )
          ]
      | inr other ↦
          let small : (m : ℕ) → n ≤ m → (¬ Prefix p full) ⊎ (length p ≤ m) = λ m le.
            elim (Bool-cases (starts_with p full)) [
              | inl starts ↦ inr (ground (arith, other, starts, le))
              | inr apart ↦ inl (not_prefix p full apart)
            ] in
          elim (best_mount_lem full mounts best n) [
            | inl (e, least) ↦ inl (rw other e, (small n (omega arith), least))
            | inr (q, gs, lt, starts, l, e) ↦ inr (
              q,
              gs,
              lt,
              starts,
              record {
                mounted = mem-cons_of_mem (p, fs) l.mounted;
                longest = (small (length q) (omega arith), l.longest);
              },
              rw other e,
            )
          ]
    ]

-- An absolute path belongs to the mount with the longest path that it starts with: the path is that of the mount
-- with `tail` behind it, no mounted path that it starts with is longer, and what the file system is asked for is
-- `tail` without the slash it may start with. When it starts with no mounted path but the empty one, there is no
-- such mount.
pub split_path_lem :
    (full : List ℕ) (mounts : Mounts)
    → ((split_path mounts (b'/' ∷ full) ≡ none) × AllAtMost (b'/' ∷ full) 0 mounts)
      ⊎ ((p : List ℕ) × (fs : FileSystem) × (tail : List ℕ) × (rest : List ℕ) × IsLongest
            (b'/' ∷ full)
            mounts
            p
            fs
          × (b'/' ∷ full ≡ p ++ tail)
          × NoSlash tail rest
          × (split_path mounts (b'/' ∷ full) ≡ some (fs, rest)))
unfolding split_path
split_path_lem full mounts = elim (best_mount_lem (b'/' ∷ full) mounts none 0) [
  | inl (e, least) ↦ inl (ap (with_rest (b'/' ∷ full)) e, least)
  | inr (p, fs, lt, starts, l, e) ↦ inr (
    p,
    fs,
    drop (length p) (b'/' ∷ full),
    rest_of (drop (length p) (b'/' ∷ full)),
    l,
    starts_with-split p (b'/' ∷ full) starts,
    NoSlash-rest_of (drop (length p) (b'/' ∷ full)),
    ap (with_rest (b'/' ∷ full)) e,
  )
]
