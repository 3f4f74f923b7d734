-- ===== src/Ring.antt =====
-- What the two ring buffers of the kernel (the pipes of kernel/syscall.c and the key buffer of
-- drivers/keyboard.c) share: the elements that stand in an array from an index on, going round.
use epona_os.Base.{
  ℕ, zero, suc, ◌+◌, ◌-◌, ◌%◌, ◌<◌, ◌≡◌, refl, ap, List, [], ◌∷◌, ◌++◌, arith, Arr, length,
}

-- The first `n` elements, and the rest.
abbrev pub take {ℓ} : {A : Type ℓ} → ℕ → List A → List A
take zero xs = []
take (suc n) [] = []
take (suc n) (x ∷ xs) = x ∷ take n xs

abbrev pub drop {ℓ} : {A : Type ℓ} → ℕ → List A → List A
drop zero xs = xs
drop (suc n) [] = []
drop (suc n) (x ∷ xs) = drop n xs

module _ (m : ℕ) where
  -- The `n` elements of a ring of `m` places from index `s % m` on.
  unfoldable pub window : Arr → ℕ → ℕ → List ℕ
  window buf s zero = []
  window buf s (suc n) = buf (s % m) ∷ window buf (s + 1) n

  pub length-window : (buf : Arr) (s n : ℕ) → length (window buf s n) ≡ n
  unfolding window
  length-window buf s zero = refl
  length-window buf s (suc n) = ap suc (length-window buf (s + 1) n)

  -- Only the elements that it shows matter.
  pub window_ext :
      (a b : Arr) (s t n : ℕ)
      → ((k : ℕ) → k < n → a ((s + k) % m) ≡ b ((t + k) % m))
      → window a s n ≡ window b t n
  unfolding window
  window_ext a b s t zero h = refl
  window_ext a b s t (suc n) h =
      let e : s + 0 ≡ s = omega arith in
      let e' : t + 0 ≡ t = omega arith in
      let here : a (s % m) ≡ b (t % m) = rw (← e, ← e') (h 0 (omega arith)) in
      let next : (k : ℕ) → k < n → a ((s + 1 + k) % m) ≡ b ((t + 1 + k) % m) = λ k lt.
        let f : s + 1 + k ≡ s + suc k = omega arith in
        let f' : t + 1 + k ≡ t + suc k = omega arith in rw (f, f') (h (suc k) (omega arith)) in
      cc (here, window_ext a b (s + 1) (t + 1) n next)

  pub window_snoc :
      (buf : Arr) (s n : ℕ) → window buf s (suc n) ≡ window buf s n ++ (buf ((s + n) % m) ∷ [])
  unfolding window
  window_snoc buf s zero = let e : s + 0 ≡ s = omega arith in rw e
  window_snoc buf s (suc n) =
      let e : s + suc n ≡ s + 1 + n = omega arith in rw (e, window_snoc buf (s + 1) n)

  pub window_pop :
      (buf : Arr) (s n : ℕ) → 0 < n → window buf s n ≡ buf (s % m) ∷ window buf (s + 1) (n - 1)
  unfolding window
  window_pop buf s zero h = elim h [ ]
  window_pop buf s (suc n) h = ap (λ k. buf (s % m) ∷ window buf (s + 1) k) (omega arith)
