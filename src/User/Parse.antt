-- ===== src/User/Parse.antt =====
-- user/stdlib.c: atoi reads what itoa wrote.
use epona_os.Base.{
  ℕ, zero, suc, ◌+◌, ◌-◌, ◌*◌, ◌/◌, ◌%◌, ◌^◌, ◌≤◌, ◌<◌, ◌≡◌, refl, sym, ap, ◌∙◌, inl, inr, true,
  false, ◌&&◌, List, [], ◌∷◌, ◌++◌, arith, Arr, subst, leb, ◌==◌, Bool-cases, if_elim,
}
use mathlib.Core.List.{reverse, reverse-cons}
use epona_os.User.{atoi_digits, atoi_signed, atoi, itoa, text_at, text_fuel, decimal_char}
use epona_os.User.Numbers.{digits, unsigned_digits}
use epona_os.User.Text.{int_text, itoa_lem}

abbrev pub IsDigit : ℕ → Type 0
IsDigit c = (b'0' ≤ c) × (c ≤ b'9')

abbrev pub AllDigit : List ℕ → Type 0
AllDigit [] = Unit
AllDigit (c ∷ cs) = IsDigit c × AllDigit cs

atoi_digits-snoc :
    (cs : List ℕ) (c val : ℕ)
    → AllDigit cs
    → IsDigit c
    → atoi_digits (cs ++ (c ∷ [])) val ≡ (atoi_digits cs val * 10 + (c - b'0')) % 2 ^ 32
unfolding atoi_digits
atoi_digits-snoc [] c val a d = ground arith
atoi_digits-snoc (x ∷ cs) c val (dx, a) d =
    let e : (leb b'0' x && leb x b'9') ≡ true = ground arith in
    rw e (atoi_digits-snoc cs c ((val * 10 + (x - b'0')) % 2 ^ 32) a d)

AllDigit-append : (cs ds : List ℕ) → AllDigit cs → AllDigit ds → AllDigit (cs ++ ds)
AllDigit-append [] ds a b = b
AllDigit-append (c ∷ cs) ds (n, a) b = (n, AllDigit-append cs ds a b)

AllDigit-digits : (rounds val : ℕ) → AllDigit (reverse (digits rounds 10 decimal_char val))
unfolding digits
AllDigit-digits zero val = _
AllDigit-digits (suc rounds) val =
    if_elim (λ (l : List ℕ). AllDigit (reverse l)) (val == 0) (λ e. _)
      (λ e.
        subst AllDigit
          (sym (reverse-cons (decimal_char (val % 10)) (digits rounds 10 decimal_char (val / 10))))
          (AllDigit-append (reverse (digits rounds 10 decimal_char (val / 10)))
            (decimal_char (val % 10) ∷ []) (AllDigit-digits rounds (val / 10))
            ((omega arith, omega arith), _)))

-- The value of the digits is the number, when there are enough of them.
atoi_digits-digits :
    (rounds val : ℕ)
    → val < 10 ^ rounds
    → val < 2 ^ 32
    → atoi_digits (reverse (digits rounds 10 decimal_char val)) 0 ≡ val
unfolding digits atoi_digits
atoi_digits-digits zero val lt small = omega arith
atoi_digits-digits (suc rounds) val lt small = elim (Bool-cases (val == 0)) [
  | inl e ↦ rw e (ground arith)
  | inr e ↦
      let ds : List ℕ = digits rounds 10 decimal_char (val / 10) in
      let ih = atoi_digits-digits rounds (val / 10) (omega arith) (omega arith) in
      rw e (
        ap (λ l. atoi_digits l 0) (reverse-cons (decimal_char (val % 10)) ds)
        ∙ atoi_digits-snoc (reverse ds) (decimal_char (val % 10)) 0
            (AllDigit-digits rounds (val / 10)) (omega arith, omega arith)
        ∙ omega (arith, ih))
]

atoi_signed-AllDigit : (cs : List ℕ) → AllDigit cs → atoi_signed cs ≡ atoi_digits cs 0
unfolding atoi_signed atoi_digits
atoi_signed-AllDigit [] a = refl
atoi_signed-AllDigit (c ∷ cs) (d, a) =
    let m : (c == b'-') ≡ false = ground arith in
    let p : (c == b'+') ≡ false = ground arith in rw (m, p) refl

atoi-AllDigit : (cs : List ℕ) → AllDigit cs → atoi cs ≡ atoi_digits cs 0
unfolding atoi atoi_digits
atoi-AllDigit [] a = refl
atoi-AllDigit (c ∷ cs) (d, a) =
    let b : (c == b' ') ≡ false = ground arith in rw b (atoi_signed-AllDigit (c ∷ cs) (d, a))

unsigned_digits_value :
    (val : ℕ)
    → val < 2 ^ 32
    → (atoi_digits (reverse (unsigned_digits 10 decimal_char val)) 0 ≡ val)
      × AllDigit (reverse (unsigned_digits 10 decimal_char val))
unfolding unsigned_digits atoi_digits
unsigned_digits_value val small = elim (Bool-cases (val == 0)) [
  | inl e ↦ rw e (ground arith, ((omega arith, omega arith), _))
  | inr e ↦ rw e (atoi_digits-digits 32 val (omega arith) small, AllDigit-digits 32 val)
]

-- `atoi` reads from the text that `itoa` wrote the number again, for every 32-bit pattern.
pub atoi-itoa :
    (val s : ℕ) (mem : Arr) → val < 2 ^ 32 → atoi (text_at text_fuel s (itoa val s mem)) ≡ val
unfolding int_text atoi atoi_signed
atoi-itoa val s mem small =
    ap (λ l. atoi l) (itoa_lem val s mem) ∙ elim (Bool-cases (leb (2 ^ 31) val)) [
      | inr e ↦
          let v = unsigned_digits_value val small in
          rw e (atoi-AllDigit (reverse (unsigned_digits 10 decimal_char val)) v.1 ∙ v.0)
      | inl e ↦
          let v = unsigned_digits_value (2 ^ 32 - val) (ground arith) in rw e (omega (arith, v.0))
    ]
