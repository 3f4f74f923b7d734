-- ===== src/Memory/Compare.antt =====
-- lib/string.c: comparing memory and strings, and the length of a string.
use epona_os.Base.{
  ℕ, zero, suc, ◌+◌, ◌≤◌, ◌<◌, ◌≡◌, refl, ap, ◌≢◌, ◌↔◌, inl, inr, some, arith, Arr, subst, ◌==◌,
  Bool-cases, extend_down,
}
use epona_os.Memory.{memcmp_loop, memcmp, strncmp_loop, strncmp, strlen_loop, strlen}

abbrev pub Bytes : Arr → Type 0
Bytes mem = (i : ℕ) → mem i < 256

memcmp_loop_lem :
    (n i a b : ℕ) (mem : Arr)
    → Bytes mem
    → (memcmp_loop n i a b mem ≡ 0) ↔ ((j : ℕ) → i ≤ j → j < i + n → mem (a + j) ≡ mem (b + j))
unfolding memcmp_loop
memcmp_loop_lem zero i a b mem h = (λ e j le lt. absurd (omega arith), λ f. refl)
memcmp_loop_lem (suc n) i a b mem h =
    let ih = memcmp_loop_lem n (i + 1) a b mem h in
    let x = h (a + i) in
    let y = h (b + i) in
    elim (Bool-cases (mem (a + i) == mem (b + i))) [
      | inl e ↦ rw e (
        λ z. extend_down' (λ j. mem (a + j) ≡ mem (b + j)) (ground arith) (ih.0 z),
        λ f. ih.1 (λ j le lt. f j (omega arith) (omega arith)),
      )
      | inr e ↦ rw e (
        λ z. absurd (ground (arith, x, y)),
        λ f. absurd (ground (arith, f i (omega arith) (omega arith))),
      )
    ]
  where
    extend_down' :
        (P : ℕ → Type 0)
        → P i
        → ((j : ℕ) → i + 1 ≤ j → j < i + 1 + n → P j)
        → (j : ℕ) → i ≤ j
        → j < i + suc n
        → P j
    extend_down' P p f = extend_down P i (i + suc n) p (λ j le lt. f j le (omega arith))

-- `memcmp` returns 0 exactly when the two ranges hold the same bytes.
pub memcmp_zero :
    (a b n : ℕ) (mem : Arr)
    → Bytes mem
    → (memcmp a b n mem ≡ 0) ↔ ((j : ℕ) → 0 ≤ j → j < 0 + n → mem (a + j) ≡ mem (b + j))
unfolding memcmp
memcmp_zero a b n mem h = memcmp_loop_lem n 0 a b mem h

strlen_loop_lem :
    (fuel n s k : ℕ) (mem : Arr)
    → n ≤ k
    → k < n + fuel
    → mem (s + k) ≡ 0
    → ((j : ℕ) → n ≤ j → j < k → mem (s + j) ≢ 0)
    → strlen_loop fuel n s mem ≡ some k
unfolding strlen_loop
strlen_loop_lem zero n s k mem le lt z h = absurd (omega arith)
strlen_loop_lem (suc fuel) n s k mem le lt z h = elim (Bool-cases (mem (s + n) == 0)) [
  | inl e ↦
      let same : n ≡ k = elim (Bool-cases (n == k)) [
        | inl q ↦ ground arith
        | inr q ↦ absurd (h n (omega arith) (ground arith) (ground arith))
      ] in
      rw e (ap some same)
  | inr e ↦
      let more : n + 1 ≤ k = elim (Bool-cases (n == k)) [
        | inl q ↦
            let same : n ≡ k = ground arith in
            absurd (ground (arith, ap (λ x. mem (s + x)) same, z))
        | inr q ↦ ground arith
      ] in
      rw e
        (strlen_loop_lem fuel (n + 1) s k mem more (omega arith) z (λ j a b. h j (omega arith) b))
]

-- When the first zero byte behind `s` is the one at offset `k`, `strlen` ends, within `k + 1` rounds, and
-- returns `k`.
pub strlen_lem :
    (fuel s k : ℕ) (mem : Arr)
    → k < fuel
    → mem (s + k) ≡ 0
    → ((j : ℕ) → 0 ≤ j → j < k → mem (s + j) ≢ 0)
    → strlen fuel s mem ≡ some k
unfolding strlen
strlen_lem fuel s k mem lt z h = strlen_loop_lem fuel 0 s k mem (omega arith) (omega arith) z h

-- No zero byte stands behind `a` before offset `j`, from offset `i` on.
abbrev pub NoEnd : (mem : Arr) (a i j : ℕ) → Type 0
NoEnd mem a i j = (k : ℕ) → i ≤ k → k < j → mem (a + k) ≢ 0

strncmp_loop_lem :
    (n i a b : ℕ) (mem : Arr)
    → Bytes mem
    → (strncmp_loop n i a b mem ≡ 0)
      ↔ ((j : ℕ) → i ≤ j → j < i + n → NoEnd mem a i j → mem (a + j) ≡ mem (b + j))
unfolding strncmp_loop
strncmp_loop_lem zero i a b mem h = (λ e j le lt _. absurd (omega arith), λ f. refl)
strncmp_loop_lem (suc n) i a b mem h =
    let ih = strncmp_loop_lem n (i + 1) a b mem h in
    let x = h (a + i) in
    let y = h (b + i) in
    elim (Bool-cases (mem (a + i) == mem (b + i))) [
      | inl e ↦ elim (Bool-cases (mem (a + i) == 0)) [
        | inl z ↦
            rw (e, z)
              (
                λ _ j le lt f. elim (Bool-cases (i == j)) [
                  | inl q ↦
                      let same : i ≡ j = ground arith in
                      subst (λ k. mem (a + k) ≡ mem (b + k)) same (ground arith)
                  | inr q ↦ absurd (f i (omega arith) (ground arith) (ground arith))
                ],
                λ f. refl,
              )
        | inr z ↦
            rw (e, z)
              (
                λ zero_rest j le lt f. elim (Bool-cases (i == j)) [
                  | inl q ↦
                      let same : i ≡ j = ground arith in
                      subst (λ k. mem (a + k) ≡ mem (b + k)) same (ground arith)
                  | inr q ↦
                      ih.0 zero_rest j (ground arith) (omega arith)
                        (λ k le' lt'. f k (omega arith) lt')
                ],
                λ f. ih.1 (λ j le lt g. f j (omega arith) (omega arith) (λ k le' lt'.
                    elim (Bool-cases (i == k)) [
                      | inl q ↦
                          let same : i ≡ k = ground arith in
                          subst (λ m. mem (a + m) ≢ 0) same (ground arith)
                      | inr q ↦ g k (ground arith) lt'
                    ])),
              )
      ]
      | inr e ↦ rw e (
        λ z. absurd (ground (arith, x, y)),
        λ f.
            absurd
              (ground (arith, f i (omega arith) (omega arith) (λ k le lt. absurd (omega arith)))),
      )
    ]

-- `strncmp` returns 0 exactly when the two strings agree at every offset below `n` that is not behind the
-- end of the first.
pub strncmp_zero :
    (a b n : ℕ) (mem : Arr)
    → Bytes mem
    → (strncmp a b n mem ≡ 0)
      ↔ ((j : ℕ) → 0 ≤ j → j < 0 + n → NoEnd mem a 0 j → mem (a + j) ≡ mem (b + j))
unfolding strncmp
strncmp_zero a b n mem h = strncmp_loop_lem n 0 a b mem h
