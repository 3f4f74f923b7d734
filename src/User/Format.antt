-- ===== src/User/Format.antt =====
-- user/stdlib.c: printf and sprintf.
use epona_os.Base.{
  ℕ, ◌+◌, ◌-◌, ◌%◌, ◌^◌, ◌≡◌, refl, sym, ap, ◌∙◌, ◌≢◌, inl, inr, true, false, ◌||◌, Option, none,
  some, List, [], ◌∷◌, ◌++◌, arith, Arr, upd, length, ltb, leb, ◌==◌, if◌then◌else◌, Bool-cases,
  codes, write_bytes,
}
use epona_os.User.{
  put_unsigned, finish_text, utoa, itox, itoa, text_at, decimal_char, hex_char, text_fuel,
}
use epona_os.User.Numeral.{numeral, signed_numeral, decimal-numeral, hex-numeral}
use epona_os.User.Text.{int_text, itoa_lem, unsigned_text_lem}

-- What `va_arg` finds: a number, or a text for a `char *`.
pub data Arg : Type 0 where
  number : ℕ → Arg
  chars : List ℕ → Arg

-- `va_arg`; where the argument is missing or of the other kind, which C leaves open, it is 0 or empty.
pub next_number : List Arg → ℕ × List Arg
next_number [] = (0, [])
next_number (number n ∷ args) = (n, args)
next_number (chars t ∷ args) = (0, args)

pub next_chars : List Arg → List ℕ × List Arg
next_chars [] = ([], [])
next_chars (number n ∷ args) = ([], args)
next_chars (chars t ∷ args) = (t, args)

-- The buffer of the helpers. What it held before does not matter.
abbrev pub blank : Arr
blank _ = 0

pub put_int : ℕ → List ℕ
put_int val = text_at text_fuel 0 (itoa (val % 2 ^ 32) 0 blank)

pub put_uint : ℕ → List ℕ
put_uint val = text_at text_fuel 0 (utoa (val % 2 ^ 32) 0 blank)

pub put_hex : ℕ → List ℕ
put_hex val = text_at text_fuel 0 (itox (val % 2 ^ 32) 0 blank)

-- The loop of `_put_ptr_to` is the one of `itox`, on 64 bits.
pub put_ptr : ℕ → List ℕ
put_ptr val =
    if val == 0
    then codes "0x0"
    else codes "0x" ++ text_at text_fuel 0 (finish_text 0 (put_unsigned 16 hex_char val 0 blank))

-- One conversion of `_vprintf`: what is put, and the arguments that are left.
pub convert : (c : ℕ) → List Arg → List ℕ × List Arg
convert c args =
    let (n, rest_n) = next_number args in
    let (t, rest_t) = next_chars args in
    if c == b'd'
    then (put_int n, rest_n)
    else if c == b'u'
    then (put_uint n, rest_n)
    else if c == b'x' || c == b'X'
    then (put_hex n, rest_n)
    else if c == b's'
    then (t, rest_t)
    else if c == b'c'
    then (n % 2 ^ 8 ∷ [], rest_n)
    else if c == b'p'
    then (put_ptr n, rest_n)
    else if c == b'%'
    then (b'%' ∷ [], args)
    else (b'%' ∷ c ∷ [], args)

abbrev pub put_before : List ℕ → Option (List ℕ) → Option (List ℕ)
put_before t none = none
put_before t (some out) = some (t ++ out)

-- `_vprintf`: what it puts. Behind a `%` at the end of the format it goes on past the end of string: `none`.
pub vprintf : (format : List ℕ) → List Arg → Option (List ℕ)
vprintf [] args = some []
vprintf (c ∷ []) args = if c == b'%' then none else some (c ∷ [])
vprintf (c ∷ d ∷ format) args =
    let (t, args') = convert d args in
    let converted = vprintf format args' in
    let plain = vprintf (d ∷ format) args in
    if c == b'%' then put_before t converted else put_before (c ∷ []) plain

-- `sprintf`: the text and the end of string.
pub sprintf : (buf : ℕ) → (format : List ℕ) → List Arg → Arr → Option Arr
sprintf buf format args mem = elim (vprintf format args) [
  | none ↦ none
  | some out ↦ some (upd (write_bytes out buf mem) (buf + length out) 0)
]

-- A format as a list of what it asks for.
pub data Piece : Type 0 where
  literal : ℕ → Piece
  int : ℕ → Piece
  uint : ℕ → Piece
  hex : ℕ → Piece
  ptr : ℕ → Piece
  text : List ℕ → Piece
  char : ℕ → Piece
  percent : Piece

-- How a piece is written in the format, what argument it takes, and what it puts.
abbrev pub written : Piece → List ℕ
written (literal c) = c ∷ []
written (int n) = codes "%d"
written (uint n) = codes "%u"
written (hex n) = codes "%x"
written (ptr n) = codes "%p"
written (text t) = codes "%s"
written (char n) = codes "%c"
written percent = codes "%%"

abbrev pub taken : Piece → List Arg
taken (literal c) = []
taken (int n) = number n ∷ []
taken (uint n) = number n ∷ []
taken (hex n) = number n ∷ []
taken (ptr n) = number n ∷ []
taken (text t) = chars t ∷ []
taken (char n) = number n ∷ []
taken percent = []

abbrev pub put : Piece → List ℕ
put (literal c) = c ∷ []
put (int n) = signed_numeral (n % 2 ^ 32)
put (uint n) = numeral 32 10 (n % 2 ^ 32)
put (hex n) = numeral 32 16 (n % 2 ^ 32)
put (ptr n) = codes "0x" ++ numeral 32 16 n
put (text t) = t
put (char n) = n % 2 ^ 8 ∷ []
put percent = b'%' ∷ []

abbrev pub AllPlain : List Piece → Type 0
AllPlain [] = Unit
AllPlain (literal c ∷ ps) = (c ≢ b'%') × AllPlain ps
AllPlain (_ ∷ ps) = AllPlain ps

abbrev pub format_of : List Piece → List ℕ
format_of [] = []
format_of (p ∷ ps) = written p ++ format_of ps

abbrev pub args_of : List Piece → List Arg
args_of [] = []
args_of (p ∷ ps) = taken p ++ args_of ps

abbrev pub output_of : List Piece → List ℕ
output_of [] = []
output_of (p ∷ ps) = put p ++ output_of ps

put_int-signed_numeral : (n : ℕ) → put_int n ≡ signed_numeral (n % 2 ^ 32)
unfolding put_int int_text
put_int-signed_numeral n =
    itoa_lem (n % 2 ^ 32) 0 blank ∙ (elim (Bool-cases (leb (2 ^ 31) (n % 2 ^ 32))) [
      | inl minus ↦
          let not_below : ltb (n % 2 ^ 32) (2 ^ 31) ≡ false = ground (arith, minus) in
          rw (minus, not_below)
            (ap (λ (l : List ℕ). b'-' ∷ l) (decimal-numeral (2 ^ 32 - n % 2 ^ 32)))
      | inr plus ↦
          let below : ltb (n % 2 ^ 32) (2 ^ 31) ≡ true = ground (arith, plus) in
          rw (plus, below) (decimal-numeral (n % 2 ^ 32))
    ])

put_uint-numeral : (n : ℕ) → put_uint n ≡ numeral 32 10 (n % 2 ^ 32)
unfolding put_uint utoa
put_uint-numeral n =
    unsigned_text_lem 10 decimal_char (n % 2 ^ 32) 0 blank (λ d. ground arith)
    ∙ decimal-numeral (n % 2 ^ 32)

hex_char-nonzero : (d : ℕ) → hex_char d ≢ 0
hex_char-nonzero d = ground arith

put_hex-numeral : (n : ℕ) → put_hex n ≡ numeral 32 16 (n % 2 ^ 32)
unfolding put_hex itox
put_hex-numeral n =
    unsigned_text_lem 16 hex_char (n % 2 ^ 32) 0 blank hex_char-nonzero ∙ hex-numeral (n % 2 ^ 32)

put_ptr-numeral : (n : ℕ) → put_ptr n ≡ codes "0x" ++ numeral 32 16 n
unfolding put_ptr
put_ptr-numeral n = elim (Bool-cases (n == 0)) [
  | inl null ↦
      let zero_n : n ≡ 0 = ground (arith, null) in
      rw null (ap (λ (v : ℕ). codes "0x" ++ numeral 32 16 v) (sym zero_n))
  | inr other ↦ rw other (
      ap (λ (l : List ℕ). codes "0x" ++ l)
        (unsigned_text_lem 16 hex_char n 0 blank hex_char-nonzero ∙ hex-numeral n))
]

-- The text of one conversion.
before :
    (r : Option (List ℕ)) (out t t' : List ℕ)
    → r ≡ some out
    → t ≡ t'
    → put_before t r ≡ some (t' ++ out)
before r out t t' e same = ap (put_before t) e ∙ ap (λ (l : List ℕ). some (l ++ out)) same

vprintf-literal :
    (c : ℕ) (format : List ℕ) (args : List Arg)
    → c ≢ b'%'
    → vprintf (c ∷ format) args ≡ put_before (c ∷ []) (vprintf format args)
unfolding vprintf
vprintf-literal c [] args n = ground (arith, n)
vprintf-literal c (d ∷ format) args n = let e : (c == b'%') ≡ false = ground (arith, n) in rw e refl

-- A format that is a sequence of characters and conversions, with an argument for each conversion that takes one,
-- puts, in order, the characters, the texts and, for the numbers, their numerals: for `%d` in base 10 with a minus
-- sign in front of the absolute value of a negative one, for `%u` in base 10, for `%x` in base 16, and for `%p` in
-- base 16 behind `0x`.
pub vprintf_lem :
    (ps : List Piece) → AllPlain ps → vprintf (format_of ps) (args_of ps) ≡ some (output_of ps)
unfolding vprintf convert next_number next_chars
vprintf_lem [] a = refl
vprintf_lem (literal c ∷ ps) (n, a) =
    vprintf-literal c (format_of ps) (args_of ps) n ∙ ap (put_before (c ∷ [])) (vprintf_lem ps a)
vprintf_lem (int n ∷ ps) a =
    before _ (output_of ps) (put_int n) _ (vprintf_lem ps a) (put_int-signed_numeral n)
vprintf_lem (uint n ∷ ps) a =
    before _ (output_of ps) (put_uint n) _ (vprintf_lem ps a) (put_uint-numeral n)
vprintf_lem (hex n ∷ ps) a =
    before _ (output_of ps) (put_hex n) _ (vprintf_lem ps a) (put_hex-numeral n)
vprintf_lem (ptr n ∷ ps) a =
    before _ (output_of ps) (put_ptr n) _ (vprintf_lem ps a) (put_ptr-numeral n)
vprintf_lem (text t ∷ ps) a = ap (put_before t) (vprintf_lem ps a)
vprintf_lem (char n ∷ ps) a = ap (put_before (n % 2 ^ 8 ∷ [])) (vprintf_lem ps a)
vprintf_lem (percent ∷ ps) a = ap (put_before (b'%' ∷ [])) (vprintf_lem ps a)
