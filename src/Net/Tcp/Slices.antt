-- ===== src/Net/Tcp/Slices.antt =====
-- Parts of a list: `n` elements from index `k` on.
use epona_os.Base.{ℕ, zero, suc, ◌+◌, ◌≤◌, ◌≡◌, refl, ap, ◌∙◌, List, [], ◌∷◌, ◌++◌, arith, length}
use epona_os.Ring.{take, drop}

take_self : (n : ℕ) (xs : List ℕ) → take n xs ≡ take (length (take n xs)) xs
take_self zero xs = refl
take_self (suc n) [] = refl
take_self (suc n) (x ∷ xs) = ap (λ l. x ∷ l) (take_self n xs)

pub take-nil : (n : ℕ) → take {A = ℕ} n [] ≡ []
take-nil zero = refl
take-nil (suc n) = refl

pub length-take-drop :
    (k n : ℕ) (xs : List ℕ) → k ≤ length xs → k + length (take n (drop k xs)) ≤ length xs
length-take-drop zero zero xs h = omega arith
length-take-drop zero (suc n) [] h = omega arith
length-take-drop zero (suc n) (x ∷ xs) h = omega (arith, length-take-drop zero n xs (omega arith))
length-take-drop (suc k) n [] h = absurd (omega arith)
length-take-drop (suc k) n (x ∷ xs) h = omega (arith, length-take-drop k n xs (omega arith))

pub length-take_within :
    (k n : ℕ) (xs : List ℕ) → k + n ≤ length xs → length (take n (drop k xs)) ≡ n
length-take_within zero zero xs h = refl
length-take_within zero (suc n) [] h = absurd (omega arith)
length-take_within zero (suc n) (x ∷ xs) h = ap suc (length-take_within zero n xs (omega arith))
length-take_within (suc k) n [] h = absurd (omega arith)
length-take_within (suc k) n (x ∷ xs) h = length-take_within k n xs (omega arith)

pub drop-end : (k : ℕ) (xs : List ℕ) → length xs ≤ k → drop k xs ≡ []
drop-end zero [] h = refl
drop-end zero (x ∷ xs) h = absurd (omega arith)
drop-end (suc k) [] h = refl
drop-end (suc k) (x ∷ xs) h = drop-end k xs (omega arith)

pub take_more :
    (k n : ℕ) (xs : List ℕ)
    → take k xs ++ take n (drop k xs) ≡ take (k + length (take n (drop k xs))) xs
take_more zero n xs = take_self n xs ∙ ap (λ k. take k xs) (omega arith)
take_more (suc k) n [] =
    let e : suc k + length (take n (drop {A = ℕ} (suc k) []))
        ≡ suc (k + length (take n (drop {A = ℕ} (suc k) []))) =
      omega arith in
    rw e (take-nil n)
take_more (suc k) n (x ∷ xs) =
    let e : suc k + length (take n (drop k xs)) ≡ suc (k + length (take n (drop k xs))) =
      omega arith in
    rw e (ap (λ l. x ∷ l) (take_more k n xs))
