-- ===== src/Keyboard.antt =====
-- drivers/keyboard.c: scancode set 1 to key codes, and the key buffer. `inb` of the status port and of
-- the data port are the two arguments of `irq`. `x & 0x7F` is written `x % 128` and a test of the
-- bit 0x80 of a byte `128 ≤ x`. Codes are numbers; characters are their ASCII codes.
use epona_os.Base.{
  ℕ, zero, suc, ◌+◌, ◌-◌, ◌*◌, ◌/◌, ◌%◌, ◌^◌, ◌≤◌, ◌<◌, bit_and, bit_or, bit_xor, ◌≡◌, refl, sym,
  ap, ◌∙◌, ◌≢◌, ◌↔◌, ◌⊎◌, inl, inr, Bool, true, false, ◌&&◌, ◌||◌, not, Option, none, some, List,
  [], ◌∷◌, ◌++◌, arith, Arr, upd, upd_self, upd_ne, subst, length, length-append, ltb, leb, ◌==◌,
  ==_iff, if◌then◌else◌, Bool-cases, extend_down, Option-cases, ltb→lt, &&_split, all_below,
  all_below_sound,
}
pub mod Queue
pub mod Irq
pub mod Typing
mod Examples

abbrev pub keybuf_size : ℕ
keybuf_size = 256

-- The file's static variables.
pub record Keyboard : Type 0 where
  pub buf : Arr
  pub head : ℕ
  pub tail : ℕ
  pub shift : Bool
  pub extended : Bool
  pub pressed : ℕ → Bool

-- An entry of a table that is initialised up to some index and 0 from there on.
abbrev pub entry : List ℕ → ℕ → ℕ
entry [] i = 0
entry (x ∷ xs) zero = x
entry (x ∷ xs) (suc i) = entry xs i

pub map : List ℕ
map =
    0 ∷ 27 ∷ b'1' ∷ b'2' ∷ b'3' ∷ b'4' ∷ b'5' ∷ b'6' ∷ b'7' ∷ b'8' ∷ b'9' ∷ b'0' ∷ 45 ∷ 61 ∷ 8 ∷ 9
    ∷ b'q' ∷ b'w' ∷ b'e' ∷ b'r' ∷ b't' ∷ b'y' ∷ b'u' ∷ b'i' ∷ b'o' ∷ b'p' ∷ 91 ∷ 93 ∷ 10 ∷ 0 ∷ b'a'
    ∷ b's' ∷ b'd' ∷ b'f' ∷ b'g' ∷ b'h' ∷ b'j' ∷ b'k' ∷ b'l' ∷ 59 ∷ 39 ∷ 96 ∷ 0 ∷ 92 ∷ b'z' ∷ b'x'
    ∷ b'c' ∷ b'v' ∷ b'b' ∷ b'n' ∷ b'm' ∷ 44 ∷ 46 ∷ 47 ∷ 0 ∷ 42 ∷ 0 ∷ 32 ∷ []

pub map_shift : List ℕ
map_shift =
    0 ∷ 27 ∷ 33 ∷ 64 ∷ 35 ∷ 36 ∷ 37 ∷ 94 ∷ 38 ∷ 42 ∷ 40 ∷ 41 ∷ 95 ∷ 43 ∷ 8 ∷ 9 ∷ b'Q' ∷ b'W' ∷ b'E'
    ∷ b'R' ∷ b'T' ∷ b'Y' ∷ b'U' ∷ b'I' ∷ b'O' ∷ b'P' ∷ 123 ∷ 125 ∷ 10 ∷ 0 ∷ b'A' ∷ b'S' ∷ b'D'
    ∷ b'F' ∷ b'G' ∷ b'H' ∷ b'J' ∷ b'K' ∷ b'L' ∷ 58 ∷ 34 ∷ 126 ∷ 0 ∷ 124 ∷ b'Z' ∷ b'X' ∷ b'C' ∷ b'V'
    ∷ b'B' ∷ b'N' ∷ b'M' ∷ 60 ∷ 62 ∷ 63 ∷ 0 ∷ 42 ∷ 0 ∷ 32 ∷ []

-- `g_ext_map`, with KEY_UP = 256 to KEY_INS = 265.
pub ext_map : ℕ → ℕ
ext_map sc =
    if sc == 0x47
    then 260
    else if sc == 0x48
    then 256
    else if sc == 0x49
    then 263
    else if sc == 0x4b
    then 258
    else if sc == 0x4d
    then 259
    else if sc == 0x4f
    then 261
    else if sc == 0x50
    then 257
    else if sc == 0x51
    then 264
    else if sc == 0x52
    then 265
    else if sc == 0x53
    then 262
    else 0

pub put_key : ℕ → Keyboard → Keyboard
put_key code k =
    let next = (k.tail + 1) % keybuf_size in
    if next == k.head then k else record k { buf = upd k.buf k.tail code; tail = next }

pub is_repeatable_scancode : ℕ → Bool
is_repeatable_scancode sc = sc == 0x0e

pub is_repeatable_ext_scancode : ℕ → Bool
is_repeatable_ext_scancode sc = sc == 0x4b || sc == 0x4d || sc == 0x47 || sc == 0x4f || sc == 0x53

-- The part of `keyboard_irq` under `if (g_extended)`.
pub extended_key : ℕ → Keyboard → Keyboard
extended_key sc k0 =
    let k : Keyboard = record k0 { extended = false } in
    let code_sc = sc % 128 in
    if leb 128 sc
    then record k { pressed = upd k.pressed code_sc false }
    else if k.pressed code_sc && not (is_repeatable_ext_scancode code_sc)
    then k
    else let k' : Keyboard = record k { pressed = upd k.pressed code_sc true } in
      let code = ext_map code_sc in if code == 0 then k' else put_key code k'

-- The part of `keyboard_irq` behind the tests for the shift keys.
pub plain_key : ℕ → Keyboard → Keyboard
plain_key sc k =
    let code_sc = sc % 128 in
    if leb 128 sc
    then record k { pressed = upd k.pressed code_sc false }
    else if k.pressed code_sc && not (is_repeatable_scancode code_sc)
    then k
    else let k' : Keyboard = record k { pressed = upd k.pressed code_sc true } in
      let c = entry (if k.shift then map_shift else map) code_sc in
      if c == 0 then k' else put_key c k'

pub scancode : ℕ → Keyboard → Keyboard
scancode sc k =
    if sc == 0xe0
    then record k { extended = true }
    else if k.extended
    then extended_key sc k
    else if sc == 0x2a || sc == 0x36
    then record k { shift = true }
    else if sc == 0xaa || sc == 0xb6
    then record k { shift = false }
    else plain_key sc k

-- PS2_OUT_FULL is bit 0 of the status, PS2_AUX_DATA bit 5.
pub irq : ℕ → ℕ → Keyboard → Keyboard
irq status sc k = if status % 2 == 0 then k else if status / 32 % 2 == 1 then k else scancode sc k

pub getc : Keyboard → ℕ × Keyboard
getc k =
    if k.head == k.tail
    then (0, k)
    else (k.buf k.head, record k { head = (k.head + 1) % keybuf_size })
