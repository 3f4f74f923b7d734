-- ===== src/Memory.antt =====
-- lib/string.c: the functions on memory and strings. The memory is a function from the address to the byte.
-- The loop of `strlen` recurs on fuel; the others have their bound.
use epona_os.Base.{
  ℕ, zero, suc, ◌+◌, ◌-◌, ◌*◌, ◌/◌, ◌%◌, ◌^◌, ◌≤◌, ◌<◌, bit_and, bit_or, bit_xor, ◌≡◌, refl, sym,
  ap, ◌∙◌, ◌≢◌, ◌↔◌, ◌⊎◌, inl, inr, Bool, true, false, ◌&&◌, ◌||◌, not, Option, none, some, List,
  [], ◌∷◌, ◌++◌, arith, Arr, upd, upd_self, upd_ne, subst, length, length-append, ltb, leb, ◌==◌,
  ==_iff, if◌then◌else◌, Bool-cases, if_elim, extend_down, Option-cases, ltb→lt, &&_split,
  all_below, all_below_sound,
}
pub mod Copy
pub mod Compare
pub mod Strings
mod Examples

-- The loops from offset `i` on.
pub memset_loop : (n i dst c : ℕ) → Arr → Arr
memset_loop zero i dst c mem = mem
memset_loop (suc n) i dst c mem = memset_loop n (i + 1) dst c (upd mem (dst + i) (c % 2 ^ 8))

pub memset : (dst c n : ℕ) → Arr → Arr
memset dst c n mem = memset_loop n 0 dst c mem

pub copy_forward : (n i dst src : ℕ) → Arr → Arr
copy_forward zero i dst src mem = mem
copy_forward (suc n) i dst src mem =
    copy_forward n (i + 1) dst src (upd mem (dst + i) (mem (src + i)))

-- The loop from the end: its index is `i + 1`.
pub copy_backward : (i dst src : ℕ) → Arr → Arr
copy_backward zero dst src mem = mem
copy_backward (suc i) dst src mem = copy_backward i dst src (upd mem (dst + i) (mem (src + i)))

pub memcpy : (dst src n : ℕ) → Arr → Arr
memcpy dst src n mem = copy_forward n 0 dst src mem

pub memmove : (dst src n : ℕ) → Arr → Arr
memmove dst src n mem =
    if ltb dst src then copy_forward n 0 dst src mem else copy_backward n dst src mem

-- `x - y` of two bytes as the 32-bit pattern of an int.
abbrev pub byte_difference : (x y : ℕ) → ℕ
byte_difference x y = (x + 2 ^ 32 - y) % 2 ^ 32

pub memcmp_loop : (n i a b : ℕ) → Arr → ℕ
memcmp_loop zero i a b mem = 0
memcmp_loop (suc n) i a b mem =
    let rest = memcmp_loop n (i + 1) a b mem in
    if not (mem (a + i) == mem (b + i)) then byte_difference (mem (a + i)) (mem (b + i)) else rest

pub memcmp : (a b n : ℕ) → Arr → ℕ
memcmp a b n mem = memcmp_loop n 0 a b mem

pub strncmp_loop : (n i a b : ℕ) → Arr → ℕ
strncmp_loop zero i a b mem = 0
strncmp_loop (suc n) i a b mem =
    let rest = strncmp_loop n (i + 1) a b mem in
    if not (mem (a + i) == mem (b + i))
    then byte_difference (mem (a + i)) (mem (b + i))
    else if mem (a + i) == 0
    then 0
    else rest

pub strncmp : (a b n : ℕ) → Arr → ℕ
strncmp a b n mem = strncmp_loop n 0 a b mem

-- `none` when the fuel is used up.
pub strlen_loop : (fuel n s : ℕ) → Arr → Option ℕ
strlen_loop zero n s mem = none
strlen_loop (suc fuel) n s mem =
    let rest = strlen_loop fuel (n + 1) s mem in if not (mem (s + n) == 0) then rest else some n

pub strlen : (fuel s : ℕ) → Arr → Option ℕ
strlen fuel s mem = strlen_loop fuel 0 s mem
