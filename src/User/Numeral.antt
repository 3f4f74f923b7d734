-- ===== src/User/Numeral.antt =====
-- user/stdlib.c: the digits that itoa, utoa and itox find, as a numeral from the highest digit on.
use epona_os.Base.{
  ℕ, zero, suc, ◌+◌, ◌-◌, ◌/◌, ◌%◌, ◌^◌, ◌≤◌, ◌<◌, ◌≡◌, refl, sym, ap, ◌∙◌, inl, inr, true, false,
  List, [], ◌∷◌, ◌++◌, arith, ltb, ◌==◌, if◌then◌else◌, Bool-cases,
}
use mathlib.Core.List.{reverse, reverse-cons}
use epona_os.User.{decimal_char, hex_char}
use epona_os.User.Numbers.{digits, unsigned_digits}

-- The digits of a number in a base, the highest first; `a` to `f` are behind `9`. Every number below 2 ^ 32 has at
-- most 32 digits, and every one below 2 ^ 64 at most 16 in base 16.
abbrev pub digit : ℕ → ℕ
digit d = if ltb d 10 then b'0' + d else b'a' + (d - 10)

abbrev pub numeral : (rounds base val : ℕ) → List ℕ
numeral zero base val = []
numeral (suc rounds) base val =
    let higher = numeral rounds base (val / base) in
    if ltb val base then digit val ∷ [] else higher ++ (digit (val % base) ∷ [])

-- An `int` is negative from 2 ^ 31 on.
abbrev pub signed_numeral : ℕ → List ℕ
signed_numeral val =
    if ltb val (2 ^ 31) then numeral 32 10 val else b'-' ∷ numeral 32 10 (2 ^ 32 - val)

-- The digits that the code finds from the lowest on are those of the numeral.
module _ (base : ℕ) (char : ℕ → ℕ) (pos : 0 < base) (small : (v : ℕ) → v < base → v / base ≡ 0)
    (rest : (v : ℕ) → v < base → v % base ≡ v) (large : (v : ℕ) → base ≤ v → 0 < v / base)
    (same : (v : ℕ) → char (v % base) ≡ digit (v % base)) where
  digits_zero : (n : ℕ) → digits n base char 0 ≡ []
  unfolding digits
  digits_zero zero = refl
  digits_zero (suc n) = refl

  digits-numeral :
      (rounds val : ℕ) → 0 < val → reverse (digits rounds base char val) ≡ numeral rounds base val
  unfolding digits
  digits-numeral zero val lt = refl
  digits-numeral (suc rounds) val lt =
      let nonzero : (val == 0) ≡ false = ground (arith, lt) in
      elim (Bool-cases (ltb val base)) [
        | inl below ↦
            let done : val / base ≡ 0 = small val (ground (arith, below)) in
            let last : char (val % base) ≡ digit val =
              same val ∙ ap (λ (d : ℕ). digit d) (rest val (ground (arith, below))) in
            rw (nonzero, below)
              (ap (λ (v : ℕ). reverse (char (val % base) ∷ digits rounds base char v)) done
                ∙ ap (λ (l : List ℕ). reverse (char (val % base) ∷ l)) (digits_zero rounds)
                ∙ ap (λ (c : ℕ). c ∷ []) last)
        | inr above ↦
            rw (nonzero, above)
              (reverse-cons (char (val % base)) (digits rounds base char (val / base))
                ∙ ap (λ (l : List ℕ). l ++ (char (val % base) ∷ []))
                    (digits-numeral rounds (val / base) (large val (ground (arith, above))))
                ∙ ap (λ (c : ℕ). numeral rounds base (val / base) ++ (c ∷ [])) (same val))
      ]

  unsigned_digits-numeral :
      (val : ℕ) → char 0 ≡ b'0' → reverse (unsigned_digits base char val) ≡ numeral 32 base val
  unfolding unsigned_digits
  unsigned_digits-numeral val z = elim (Bool-cases (val == 0)) [
    | inl none_left ↦
        let zero_val : val ≡ 0 = ground (arith, none_left) in
        let below : ltb val base ≡ true = ground (arith, zero_val, pos) in
        rw (none_left, below) (ap (λ (v : ℕ). digit v ∷ []) (sym zero_val))
    | inr some_left ↦ rw some_left (digits-numeral 32 val (ground (arith, some_left)))
  ]

pub decimal-numeral : (val : ℕ) → reverse (unsigned_digits 10 decimal_char val) ≡ numeral 32 10 val
decimal-numeral val =
    unsigned_digits-numeral 10 decimal_char (omega arith) (λ v lt. omega (arith, lt))
      (λ v lt. omega (arith, lt)) (λ v le. omega (arith, le)) (λ v. ground arith) val refl

pub hex-numeral : (val : ℕ) → reverse (unsigned_digits 16 hex_char val) ≡ numeral 32 16 val
hex-numeral val =
    unsigned_digits-numeral 16 hex_char (omega arith) (λ v lt. omega (arith, lt))
      (λ v lt. omega (arith, lt)) (λ v le. omega (arith, le)) (λ v. ground arith) val refl
