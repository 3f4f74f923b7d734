-- ===== src/User/Text.antt =====
-- user/stdlib.c: the text of a number, from its first character on.
use epona_os.Base.{
  ℕ, zero, suc, ◌+◌, ◌-◌, ◌/◌, ◌%◌, ◌^◌, ◌≤◌, ◌<◌, ◌≡◌, refl, sym, ap, ◌∙◌, ◌≢◌, inl, inr, true,
  false, List, [], ◌∷◌, ◌++◌, arith, Arr, upd, subst, length, length-append, leb, ◌==◌,
  if◌then◌else◌, Bool-cases, if_elim, bytes_at, write_bytes,
}
use mathlib.Core.List.{reverse, reverse-append, reverse-cons}
use epona_os.User.{
  put_unsigned, put_sign, finish_text, itoa, text_at, decimal_char, text_fuel, reverse_str,
}
use epona_os.User.Reverse.{reverse_str-IsText}
use epona_os.User.Numbers.{digits, unsigned_digits, put_unsigned_lem, AllNonzero, written-IsText}

AllNonzero-append : (cs ds : List ℕ) → AllNonzero cs → AllNonzero ds → AllNonzero (cs ++ ds)
AllNonzero-append [] ds a b = b
AllNonzero-append (c ∷ cs) ds (n, a) b = (n, AllNonzero-append cs ds a b)

AllNonzero-reverse : (cs : List ℕ) → AllNonzero cs → AllNonzero (reverse cs)
AllNonzero-reverse [] a = _
AllNonzero-reverse (c ∷ cs) (n, a) =
    subst AllNonzero (sym (reverse-cons c cs))
      (AllNonzero-append (reverse cs) (c ∷ []) (AllNonzero-reverse cs a) (n, _))

text_at-chars :
    (fuel s : ℕ) (mem : Arr) (cs : List ℕ)
    → bytes_at mem s (length cs) ≡ cs
    → mem (s + length cs) ≡ 0
    → AllNonzero cs
    → length cs < fuel
    → text_at fuel s mem ≡ cs
unfolding text_at
text_at-chars zero s mem cs e z a lt = absurd (omega arith)
text_at-chars (suc fuel) s mem [] e z a lt =
    let here : mem s ≡ 0 = ap mem (omega arith) ∙ z in ground (arith, here)
text_at-chars (suc fuel) s mem (c ∷ cs) e z (n, a) lt =
    let first : mem s ≡ c = ap (head_or s) e in
    let nz : (mem s == 0) ≡ false = ground (arith, first) in
    let end : mem (s + 1 + length cs) ≡ 0 = ap mem (omega arith) ∙ z in
    rw nz (
      ap (λ x. x ∷ text_at fuel (s + 1) mem) first
      ∙ ap (λ l. c ∷ l) (text_at-chars fuel (s + 1) mem cs (ap tail_of e) end a (omega arith)))
  where
    head_or : ℕ → List ℕ → ℕ
    head_or d [] = d
    head_or d (x ∷ _) = x

    tail_of : List ℕ → List ℕ
    tail_of [] = []
    tail_of (_ ∷ xs) = xs

length-reverse_lem : (cs : List ℕ) → length (reverse cs) ≡ length cs
length-reverse_lem [] = refl
length-reverse_lem (c ∷ cs) =
    ap (λ l. length l) (reverse-cons c cs)
    ∙ length-append (reverse cs) (c ∷ [])
    ∙ omega (arith, length-reverse_lem cs)

-- Characters that have been written are turned round.
pub finish_text_lem :
    (cs : List ℕ) (s : ℕ) (mem : Arr)
    → AllNonzero cs
    → length cs < text_fuel
    → text_at text_fuel s (finish_text s (length cs, write_bytes cs s mem)) ≡ reverse cs
unfolding finish_text
finish_text_lem cs s mem a lt =
    let w : Arr = upd (write_bytes cs s mem) (s + length cs) 0 in
    let r = reverse_str-IsText text_fuel s w cs (written-IsText cs s mem a) lt in
    let len = length-reverse_lem cs in
    text_at-chars text_fuel s (reverse_str text_fuel s w) (reverse cs)
      (ap (bytes_at (reverse_str text_fuel s w) s) len ∙ r.0)
      (ap (λ k. reverse_str text_fuel s w (s + k)) len ∙ r.1) (AllNonzero-reverse cs a)
      (omega (arith, len))

pub length-digits :
    (rounds base : ℕ) (char : ℕ → ℕ) (val : ℕ) → length (digits rounds base char val) ≤ rounds
unfolding digits
length-digits zero base char val = omega arith
length-digits (suc rounds) base char val =
    ground (arith, length-digits rounds base char (val / base))

digits-AllNonzero :
    (rounds base : ℕ) (char : ℕ → ℕ) (val : ℕ)
    → ((d : ℕ) → char d ≢ 0)
    → AllNonzero (digits rounds base char val)
unfolding digits
digits-AllNonzero zero base char val n = _
digits-AllNonzero (suc rounds) base char val n =
    if_elim AllNonzero (val == 0) (λ e. _)
      (λ e. (n (val % base), digits-AllNonzero rounds base char (val / base) n))

unsigned_digits-AllNonzero :
    (base : ℕ) (char : ℕ → ℕ) (val : ℕ)
    → ((d : ℕ) → char d ≢ 0)
    → AllNonzero (unsigned_digits base char val)
unfolding unsigned_digits
unsigned_digits-AllNonzero base char val n =
    if_elim AllNonzero (val == 0) (λ e. (omega arith, _))
      (λ e. digits-AllNonzero 32 base char val n)

length-unsigned_digits :
    (base : ℕ) (char : ℕ → ℕ) (val : ℕ) → length (unsigned_digits base char val) ≤ 32
unfolding unsigned_digits
length-unsigned_digits base char val =
    if_elim (λ (l : List ℕ). length l ≤ 32) (val == 0) (λ e. omega arith)
      (λ e. length-digits 32 base char val)

-- The text of an unsigned number: its digits from the first one on.
pub unsigned_text_lem :
    (base : ℕ) (char : ℕ → ℕ) (val s : ℕ) (mem : Arr)
    → ((d : ℕ) → char d ≢ 0)
    → text_at text_fuel s (finish_text s (put_unsigned base char val s mem))
      ≡ reverse (unsigned_digits base char val)
unsigned_text_lem base char val s mem n =
    ap (λ r. text_at text_fuel s (finish_text s r)) (put_unsigned_lem base char val s mem)
    ∙ finish_text_lem (unsigned_digits base char val) s mem
        (unsigned_digits-AllNonzero base char val n)
        (omega (arith, length-unsigned_digits base char val))

write_bytes-snoc :
    (cs : List ℕ) (c s : ℕ) (mem : Arr)
    → write_bytes (cs ++ (c ∷ [])) s mem ≡ upd (write_bytes cs s mem) (s + length cs) c
unfolding write_bytes
write_bytes-snoc [] c s mem = ap (λ k. upd mem k c) (omega arith)
write_bytes-snoc (d ∷ cs) c s mem =
    write_bytes-snoc cs c (s + 1) (upd mem s d)
    ∙ ap (λ k. upd (write_bytes cs (s + 1) (upd mem s d)) k c) (omega arith)

-- The text of an int: the sign, if it is negative, and the digits of its absolute value.
unfoldable pub int_text : ℕ → List ℕ
int_text val =
    if leb (2 ^ 31) val
    then b'-' ∷ reverse (unsigned_digits 10 decimal_char (2 ^ 32 - val))
    else reverse (unsigned_digits 10 decimal_char val)

signed_text_lem :
    (cs : List ℕ) (s : ℕ) (mem : Arr)
    → AllNonzero cs
    → length cs ≤ 32
    → text_at text_fuel s
        (finish_text s (length cs + 1, upd (write_bytes cs s mem) (s + length cs) b'-'))
      ≡ b'-' ∷ reverse cs
signed_text_lem cs s mem a short =
    let all : List ℕ = cs ++ (b'-' ∷ []) in
    let len : length all ≡ length cs + 1 = length-append cs (b'-' ∷ []) in
    let minus : ◌≢◌ {A = ℕ} b'-' 0 = omega arith in
    let short' : length all < text_fuel = omega (arith, len, short) in
    let signed : (length cs + 1, upd (write_bytes cs s mem) (s + length cs) b'-')
        ≡ (length all, write_bytes all s mem) =
      ap (λ k. (k, upd (write_bytes cs s mem) (s + length cs) b'-')) (sym len)
      ∙ ap (λ m. (length all, m)) (sym (write_bytes-snoc cs b'-' s mem)) in
    ap (λ (r : ℕ × Arr). text_at text_fuel s (finish_text s r)) signed
    ∙ finish_text_lem all s mem (AllNonzero-append cs (b'-' ∷ []) a (minus, _)) short'
    ∙ reverse-append cs (b'-' ∷ [])

-- What `itoa` writes.
pub itoa_lem : (val s : ℕ) (mem : Arr) → text_at text_fuel s (itoa val s mem) ≡ int_text val
unfolding itoa int_text
itoa_lem val s mem = elim (Bool-cases (leb (2 ^ 31) val)) [
  | inr e ↦ rw e (unsigned_text_lem 10 decimal_char val s mem (λ d. omega arith))
  | inl e ↦
      let uval : ℕ = 2 ^ 32 - val in
      let cs : List ℕ = unsigned_digits 10 decimal_char uval in
      let put =
        ap (λ (r : ℕ × Arr). text_at text_fuel s (finish_text s (put_sign true s r)))
          (put_unsigned_lem 10 decimal_char uval s mem) in
      let text =
        signed_text_lem cs s mem
          (unsigned_digits-AllNonzero 10 decimal_char uval (λ d. omega arith))
          (length-unsigned_digits 10 decimal_char uval) in
      rw e (put ∙ text)
]
