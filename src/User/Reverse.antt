-- ===== src/User/Reverse.antt =====
-- user/stdlib.c: strlen and reverse_str.
use epona_os.Base.{
  ℕ, zero, suc, ◌+◌, ◌-◌, ◌≤◌, ◌<◌, ◌≡◌, refl, sym, ap, ◌∙◌, ◌≢◌, inl, inr, false, ◌&&◌, List, [],
  ◌∷◌, ◌++◌, arith, Arr, upd, upd_self, upd_ne, length, ltb, leb, ◌==◌, if◌then◌else◌, Bool-cases,
  if_elim, bytes_at, bytes_at-add,
}
use mathlib.Core.List.{reverse, reverse-append}
use epona_os.User.{strlen_loop, strlen, swap_loop, reverse_str}

-- At most one element is its own mirror image.
turned_one :
    (s i j : ℕ) (mem : Arr) (k : ℕ)
    → j ≤ i
    → mem k ≡ (if leb (s + i) k && leb k (s + j) then mem (s + (i + j - (k - s))) else mem k)
turned_one s i j mem k le =
    if_elim (λ v. mem k ≡ v) (leb (s + i) k && leb k (s + j))
      (λ e. let same : k ≡ s + (i + j - (k - s)) = ground arith in ap mem same) (λ e. refl)

swapped_other :
    (s i j x : ℕ) (mem : Arr)
    → s + i ≢ x
    → s + j ≢ x
    → upd (upd mem (s + i) (mem (s + j))) (s + j) (mem (s + i)) x ≡ mem x
swapped_other s i j x mem ni nj =
    upd_ne (upd mem (s + i) (mem (s + j))) (s + j) x (mem (s + i)) nj
    ∙ upd_ne mem (s + i) x (mem (s + j)) ni

-- What is left to turn once the ends have been swapped.
turned :
    (s i j : ℕ) (mem m : Arr) (k : ℕ)
    → i < j
    → m (s + i) ≡ mem (s + j)
    → m (s + j) ≡ mem (s + i)
    → ((x : ℕ) → s + i ≢ x → s + j ≢ x → m x ≡ mem x)
    → (if leb (s + (i + 1)) k && leb k (s + (j - 1))
        then m (s + (i + 1 + (j - 1) - (k - s)))
        else m k)
      ≡ (if leb (s + i) k && leb k (s + j) then mem (s + (i + j - (k - s))) else mem k)
turned s i j mem m k lt left right other = elim (Bool-cases (s + i == k)) [
  | inl e ↦
      let at : k ≡ s + i = ground arith in
      let mirror : s + (i + j - (k - s)) ≡ s + j = ground arith in
      ground (arith, ap m at, ap mem mirror, left)
  | inr ni ↦ elim (Bool-cases (s + j == k)) [
    | inl e ↦
        let at : k ≡ s + j = ground arith in
        let mirror : s + (i + j - (k - s)) ≡ s + i = ground arith in
        ground (arith, ap m at, ap mem mirror, right)
    | inr nj ↦ elim (Bool-cases (leb (s + (i + 1)) k && leb k (s + (j - 1)))) [
      | inl inside ↦
          let mirror : s + (i + 1 + (j - 1) - (k - s)) ≡ s + (i + j - (k - s)) = ground arith in
          let same = other (s + (i + j - (k - s))) (ground arith) (ground arith) in
          ground (arith, ap m mirror, same)
      | inr outside ↦ ground (arith, other k (ground arith) (ground arith))
    ]
  ]
]

-- The loop turns round what stands from index `i` to index `j`, and leaves all else.
swap_loop_lem :
    (rounds s i j : ℕ) (mem : Arr) (k : ℕ)
    → j ≤ i + rounds
    → swap_loop rounds s i j mem k
      ≡ (if leb (s + i) k && leb k (s + j) then mem (s + (i + j - (k - s))) else mem k)
unfolding swap_loop
swap_loop_lem zero s i j mem k le = turned_one s i j mem k (omega arith)
swap_loop_lem (suc rounds) s i j mem k le = elim (Bool-cases (ltb i j)) [
  | inr stop ↦ rw stop (turned_one s i j mem k (ground arith))
  | inl go ↦
      let once : Arr = upd mem (s + i) (mem (s + j)) in
      let m : Arr = upd once (s + j) (mem (s + i)) in
      let ih = swap_loop_lem rounds s (i + 1) (j - 1) m k (ground arith) in
      let left : m (s + i) ≡ mem (s + j) =
        upd_ne once (s + j) (s + i) (mem (s + i)) (ground arith)
        ∙ upd_self mem (s + i) (mem (s + j)) in
      let right : m (s + j) ≡ mem (s + i) = upd_self once (s + j) (mem (s + i)) in
      rw go (
        ih
        ∙ turned s i j mem m k (ground arith) left right
            (λ x ni nj. swapped_other s i j x mem ni nj))
]

-- A text stands at `s`.
pub record IsText (mem : Arr) (s : ℕ) (text : List ℕ) : Type 0 where
  pub chars : bytes_at mem s (length text) ≡ text
  pub ended : mem (s + length text) ≡ 0
  pub within : (j : ℕ) → j < length text → mem (s + j) ≢ 0

strlen_loop_lem :
    (fuel n s : ℕ) (mem : Arr) (len : ℕ)
    → n ≤ len
    → len < n + fuel
    → ((j : ℕ) → j < len → mem (s + j) ≢ 0)
    → mem (s + len) ≡ 0
    → strlen_loop fuel n s mem ≡ len
unfolding strlen_loop
strlen_loop_lem zero n s mem len le lt w z = absurd (omega arith)
strlen_loop_lem (suc fuel) n s mem len le lt w z = elim (Bool-cases (n == len)) [
  | inl e ↦
      let here : mem (s + n) ≡ 0 = ap (λ k. mem (s + k)) (ground arith) ∙ z in ground (arith, here)
  | inr ne ↦
      let nz : (mem (s + n) == 0) ≡ false = ground (arith, w n (ground arith)) in
      rw nz (strlen_loop_lem fuel (n + 1) s mem len (ground arith) (omega arith) w z)
]

pub strlen_lem :
    (fuel s : ℕ) (mem : Arr) (text : List ℕ)
    → IsText mem s text
    → length text < fuel
    → strlen fuel s mem ≡ length text
unfolding strlen
strlen_lem fuel s mem text t lt =
    strlen_loop_lem fuel 0 s mem (length text) (omega arith) (omega arith) t.within t.ended

-- Bytes read backwards.
reverse-bytes_at :
    (a b : Arr) (i j n : ℕ)
    → ((k : ℕ) → k < n → a (i + k) ≡ b (j + (n - 1 - k)))
    → bytes_at a i n ≡ reverse (bytes_at b j n)
reverse-bytes_at a b i j zero h = refl
reverse-bytes_at a b i j (suc n) h =
    let first : a i ≡ b (j + n) = ap a (omega arith) ∙ h 0 (omega arith) ∙ ap b (omega arith) in
    let ih =
      reverse-bytes_at a b (i + 1) j n
        (λ k lt. ap a (omega arith) ∙ h (k + 1) (omega arith) ∙ ap b (omega arith)) in
    let more : suc n ≡ n + 1 = omega arith in
    let split : bytes_at b j (suc n) ≡ bytes_at b j n ++ (b (j + n) ∷ []) =
      ap (λ k. bytes_at b j k) more ∙ bytes_at-add b j n 1 in
    ap (λ x. x ∷ bytes_at a (i + 1) n) first
    ∙ ap (λ l. b (j + n) ∷ l) ih
    ∙ sym (ap reverse split ∙ reverse-append (bytes_at b j n) (b (j + n) ∷ []))

-- `reverse_str` turns the text round and writes nothing else.
pub reverse_str-IsText :
    (fuel s : ℕ) (mem : Arr) (text : List ℕ)
    → IsText mem s text
    → length text < fuel
    → (bytes_at (reverse_str fuel s mem) s (length text) ≡ reverse text)
      × (reverse_str fuel s mem (s + length text) ≡ 0)
unfolding reverse_str
reverse_str-IsText fuel s mem text t lt =
    let n : ℕ = length text in
    let len : strlen fuel s mem ≡ n = strlen_lem fuel s mem text t lt in
    let m : Arr = swap_loop n s 0 (n - 1) mem in
    let at = λ (k : ℕ). swap_loop_lem n s 0 (n - 1) mem k (omega arith) in
    let turned_k : (k : ℕ) → k < n → m (s + k) ≡ mem (s + (n - 1 - k)) = λ k lt'.
      let mirror : s + (0 + (n - 1) - (s + k - s)) ≡ s + (n - 1 - k) = omega arith in
      ground (arith, at (s + k), ap mem mirror) in
    let end : m (s + n) ≡ 0 = elim (Bool-cases (n == 0)) [
      | inl e ↦
          let mirror : s + (0 + (n - 1) - (s + n - s)) ≡ s + n = ground arith in
          ground (arith, at (s + n), ap mem mirror, t.ended)
      | inr e ↦ ground (arith, at (s + n), t.ended)
    ] in
    rw len (reverse-bytes_at m mem s s n turned_k ∙ ap reverse t.chars, end)
