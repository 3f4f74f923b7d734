-- ===== src/Fat/Chain.antt =====
-- fs/fat.c: the chain of clusters of a file, and how it is freed.
use epona_os.Base.{
  ℕ, zero, suc, ◌+◌, ◌*◌, ◌%◌, ◌^◌, ◌<◌, ◌≡◌, sym, ap, ◌∙◌, inl, inr, Bool, true, false, ◌&&◌, ◌||◌,
  not, List, [], ◌∷◌, arith, Arr, subst, length, ltb, leb, ◌==◌, if◌then◌else◌, Bool-cases, if_elim,
}
use epona_os.Fat.{
  Volume, Drive, fat_eoc, write_sector, entry_sector, ent_offset, next_cluster, write_copies,
  with_entry, set_cluster, free_cluster_chain,
}
use epona_os.Fat.Table.{IsFat, Answers, InTable, next_cluster-set_cluster}

with_entry-bytes :
    (i value : ℕ) (buf : Arr) (j : ℕ) → ((k : ℕ) → buf k < 256) → with_entry i value buf j < 256
with_entry-bytes i value buf j bytes = ground (arith, bytes j)

write_sector-Answers :
    (x : ℕ) (buf : Arr) (d : Drive)
    → ((k : ℕ) → buf k < 256)
    → Answers d
    → Answers (write_sector x buf d)
write_sector-Answers x buf d bytes a = record {
  bytes = λ y i. elim (Bool-cases (x == y)) [
    | inl same ↦ rw same (bytes i)
    | inr other ↦ rw other (a.bytes y i)
  ];
  reads = a.reads;
  writes = a.writes;
}

write_copies-Answers :
    (v : Volume) (n i at : ℕ) (buf : Arr) (d : Drive)
    → ((k : ℕ) → buf k < 256)
    → Answers d
    → Answers (write_copies v n i at buf d).1
unfolding write_copies
write_copies-Answers v zero i at buf d bytes a = a
write_copies-Answers v (suc n) i at buf d bytes a =
    let sector : ℕ = (v.fat_start + i * v.sectors_per_fat + at) % 2 ^ 32 in
    if_elim (λ (r : ℕ × Drive). Answers r.1) (not (d.writable sector)) (λ lost. a)
      (λ ok.
        write_copies-Answers v n (i + 1) at buf (write_sector sector buf d) bytes
          (write_sector-Answers sector buf d bytes a))

set_cluster-Answers :
    (v : Volume) (c value : ℕ) (d : Drive) → Answers d → Answers (set_cluster v c value d).1
unfolding set_cluster
set_cluster-Answers v c value d a =
    let sector : ℕ = (v.fat_start + entry_sector v c) % 2 ^ 32 in
    if_elim (λ (r : ℕ × Drive). Answers r.1) (not (d.readable sector)) (λ lost. a)
      (λ ok.
        write_copies-Answers v v.fat_count 0 (entry_sector v c)
          (with_entry (ent_offset v c) value (d.sectors sector)) d
          (λ k. with_entry-bytes (ent_offset v c) value (d.sectors sector) k (a.bytes sector)) a)

abbrev pub is_in : ℕ → List ℕ → Bool
is_in c [] = false
is_in c (x ∷ xs) = x == c || is_in c xs

-- The clusters from `c` on, by `fat_next_cluster`, up to a number that is no cluster; each comes once.
abbrev pub Chain : Volume → (c : ℕ) → List ℕ → Drive → Type 0
Chain v c [] d = (leb 2 c && ltb c fat_eoc) ≡ false
Chain v c (x ∷ xs) d =
    (c ≡ x)
    × ((leb 2 x && ltb x fat_eoc) ≡ true)
    × InTable v x
    × (is_in x xs ≡ false)
    × Chain v (next_cluster v x d) xs d

-- A change of another entry leaves the chain.
Chain-set_cluster :
    (v : Volume) (extra x value c : ℕ) (xs : List ℕ) (d : Drive)
    → IsFat v extra
    → Answers d
    → InTable v x
    → is_in x xs ≡ false
    → Chain v c xs d
    → Chain v c xs (set_cluster v x value d).1
Chain-set_cluster v extra x value c [] d fat a there out chain = chain
Chain-set_cluster v extra x value c (y ∷ ys) d fat a there out (at, good, in_table, once, rest) =
    let d' : Drive = (set_cluster v x value d).1 in
    let other : (x == y) ≡ false = ground (arith, out) in
    let same : next_cluster v y d' ≡ next_cluster v y d =
      (next_cluster-set_cluster v extra x value y d fat a there in_table).1
      ∙ ap (λ b. if b then value % 2 ^ 28 else next_cluster v y d) other in
    (
      at,
      good,
      in_table,
      once,
      subst (λ n. Chain v n ys d') (sym same)
          (Chain-set_cluster v extra x value (next_cluster v y d) ys d fat a there
            (ground (arith, out)) rest),
    )

-- On a drive that answers, `fat_free_cluster_chain` ends for every chain, makes the entries of its clusters 0, and leaves
-- those of all other clusters of the table as they were.
pub free_cluster_chain_lem :
    (v : Volume) (extra fuel c : ℕ) (xs : List ℕ) (d : Drive) (y : ℕ)
    → IsFat v extra
    → Answers d
    → Chain v c xs d
    → length xs < fuel
    → InTable v y
    → next_cluster v y (free_cluster_chain v fuel c d)
      ≡ (if is_in y xs then 0 else next_cluster v y d)
unfolding free_cluster_chain
free_cluster_chain_lem v extra zero c xs d y fat a chain enough in_table = absurd (omega arith)
free_cluster_chain_lem v extra (suc fuel) c [] d y fat a chain enough in_table =
    ap (λ (d : Drive). next_cluster v y d)
      (ap
        (λ b.
          if b then free_cluster_chain v fuel (next_cluster v c d) (set_cluster v c 0 d).1 else d)
        chain)
free_cluster_chain_lem v extra (suc fuel) c (x ∷ xs) d y fat a (at, good, there, once, rest) enough
      in_table =
    let d' : Drive = (set_cluster v x 0 d).1 in
    let next : ℕ = next_cluster v x d in
    let run : free_cluster_chain v (suc fuel) c d ≡ free_cluster_chain v fuel next d' =
      ap (λ c. free_cluster_chain v (suc fuel) c d) at
      ∙ ap (λ b. if b then free_cluster_chain v fuel next d' else d) good in
    let cleared : next_cluster v y d' ≡ (if x == y then 0 else next_cluster v y d) =
      (next_cluster-set_cluster v extra x 0 y d fat a there in_table).1 in
    let others : next_cluster v y (free_cluster_chain v fuel next d')
        ≡ (if is_in y xs then 0 else next_cluster v y d') =
      free_cluster_chain_lem v extra fuel next xs d' y fat (set_cluster-Answers v x 0 d a)
        (Chain-set_cluster v extra x 0 next xs d fat a there once rest) (omega arith) in_table in
    ap (λ (d : Drive). next_cluster v y d) run ∙ ground (arith, cleared, others)
