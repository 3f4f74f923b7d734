-- ===== src/User.antt =====
-- user/stdlib.c: numbers as text, for the programs in user mode. A text that is read is its characters before the
-- end of string; a buffer that is written stands in memory. An int is its 32-bit pattern.
use epona_os.Base.{
  ℕ, zero, suc, ◌+◌, ◌-◌, ◌*◌, ◌/◌, ◌%◌, ◌^◌, ◌≤◌, ◌<◌, bit_and, bit_or, bit_xor, ◌≡◌, refl, sym,
  ap, ◌∙◌, ◌≢◌, ◌↔◌, ◌⊎◌, inl, inr, Bool, true, false, ◌&&◌, ◌||◌, not, Option, none, some, List,
  [], ◌∷◌, ◌++◌, arith, Arr, upd, upd_self, upd_ne, subst, length, length-append, ltb, leb, ◌==◌,
  ==_iff, if◌then◌else◌, Bool-cases, if_elim, extend_down, Option-cases, ltb→lt, &&_split,
  all_below, all_below_sound, bytes_at, length-bytes_at, bytes_at_ext, bytes_at-add, codes,
  write_bytes, write_bytes-out, bytes_at-write_bytes, Spells, Spells-append, Spells-join,
  Spells-ext, Spells-write_bytes,
}
pub mod Reverse
pub mod Numbers
pub mod Numeral
pub mod Text
pub mod Strings
pub mod Format
pub mod Blocks
pub mod Parse
mod Examples

-- The rounds of `strlen` that are left, and the count.
unfoldable pub strlen_loop : (fuel n s : ℕ) → Arr → ℕ
strlen_loop zero n s mem = n
strlen_loop (suc fuel) n s mem =
    let rest = strlen_loop fuel (n + 1) s mem in if mem (s + n) == 0 then n else rest

unfoldable pub strlen : (fuel s : ℕ) → Arr → ℕ
strlen fuel s mem = strlen_loop fuel 0 s mem

-- The loop of `reverse_str`.
unfoldable pub swap_loop : (rounds s i j : ℕ) → Arr → Arr
swap_loop zero s i j mem = mem
swap_loop (suc rounds) s i j mem =
    let swapped = upd (upd mem (s + i) (mem (s + j))) (s + j) (mem (s + i)) in
    let rest = swap_loop rounds s (i + 1) (j - 1) swapped in if ltb i j then rest else mem

-- `reverse_str`, for a text of fewer than `fuel` characters.
unfoldable pub reverse_str : (fuel s : ℕ) → Arr → Arr
reverse_str fuel s mem = let n = strlen fuel s mem in swap_loop n s 0 (n - 1) mem

abbrev pub decimal_char : ℕ → ℕ
decimal_char d = b'0' + d

-- `hex[d]`
abbrev pub hex_char : ℕ → ℕ
hex_char d = if ltb d 10 then b'0' + d else b'a' + (d - 10)

-- The loop over the digits, the last one first: the next index and the buffer. 32 rounds are enough for
-- any 32-bit number.
unfoldable pub put_digits : (rounds base : ℕ) (char : ℕ → ℕ) (val i s : ℕ) → Arr → ℕ × Arr
put_digits zero base char val i s mem = (i, mem)
put_digits (suc rounds) base char val i s mem =
    let rest =
      put_digits rounds base char (val / base) (i + 1) s (upd mem (s + i) (char (val % base))) in
    if val == 0 then (i, mem) else rest

-- What `itoa`, `utoa` and `itox` do first.
unfoldable pub put_unsigned : (base : ℕ) (char : ℕ → ℕ) (val s : ℕ) → Arr → ℕ × Arr
put_unsigned base char val s mem =
    if val == 0 then (1, upd mem s b'0') else put_digits 32 base char val 0 s mem

-- The longest text, a sign and the digits, has fewer characters than this.
abbrev pub text_fuel : ℕ
text_fuel = 34

-- The end of string, and the turn.
unfoldable pub finish_text : (s : ℕ) → ℕ × Arr → Arr
finish_text s (i, mem) = reverse_str text_fuel s (upd mem (s + i) 0)

unfoldable pub utoa : (val s : ℕ) → Arr → Arr
utoa val s mem = finish_text s (put_unsigned 10 decimal_char val s mem)

unfoldable pub itox : (val s : ℕ) → Arr → Arr
itox val s mem = finish_text s (put_unsigned 16 hex_char val s mem)

abbrev pub put_sign : Bool → (s : ℕ) → ℕ × Arr → ℕ × Arr
put_sign neg s (i, mem) = if neg then (i + 1, upd mem (s + i) b'-') else (i, mem)

unfoldable pub itoa : (val s : ℕ) → Arr → Arr
itoa val s mem =
    let neg = leb (2 ^ 31) val in
    let uval = if neg then 2 ^ 32 - val else val in
    finish_text s (put_sign neg s (put_unsigned 10 decimal_char uval s mem))

-- The loop over the digits of `atoi`. The int is its bit pattern: where it grows beyond 2 ^ 31 - 1, which C leaves open,
-- it wraps around, as the compiled multiplication and addition do.
unfoldable pub atoi_digits : List ℕ → (val : ℕ) → ℕ
atoi_digits [] val = val
atoi_digits (c ∷ cs) val =
    let rest = atoi_digits cs ((val * 10 + (c - b'0')) % 2 ^ 32) in
    if leb b'0' c && leb c b'9' then rest else val

unfoldable pub atoi_signed : List ℕ → ℕ
atoi_signed [] = 0
atoi_signed (c ∷ cs) =
    if c == b'-'
    then (2 ^ 32 - atoi_digits cs 0) % 2 ^ 32
    else if c == b'+'
    then atoi_digits cs 0
    else atoi_digits (c ∷ cs) 0

-- `atoi`
unfoldable pub atoi : List ℕ → ℕ
atoi [] = 0
atoi (c ∷ cs) = if c == b' ' then atoi cs else atoi_signed (c ∷ cs)

-- The text in a buffer.
unfoldable pub text_at : (fuel s : ℕ) → Arr → List ℕ
text_at zero s mem = []
text_at (suc fuel) s mem =
    let rest = text_at fuel (s + 1) mem in if mem s == 0 then [] else mem s ∷ rest
