-- ===== src/Mouse.antt =====
-- drivers/mouse.c: the packets of a PS/2 mouse. `g_mouse_x` and `g_mouse_y` are the bit patterns of an `int`.
use epona_os.Base.{
  ℕ, zero, suc, ◌+◌, ◌-◌, ◌*◌, ◌/◌, ◌%◌, ◌^◌, ◌≤◌, ◌<◌, bit_and, bit_or, bit_xor, ◌≡◌, refl, sym,
  ap, ◌∙◌, ◌≢◌, ◌↔◌, ◌⊎◌, inl, inr, Bool, true, false, ◌&&◌, ◌||◌, not, Option, none, some, List,
  [], ◌∷◌, ◌++◌, arith, Arr, upd, upd_self, upd_ne, subst, length, length-append, ltb, leb, ◌==◌,
  ==_iff, if◌then◌else◌, Bool-cases, if_elim, extend_down, Option-cases, ltb→lt, &&_split,
  all_below, all_below_sound, bytes_at, length-bytes_at, bytes_at_ext, bytes_at-add, codes,
  write_bytes, write_bytes-out, bytes_at-write_bytes, Spells, Spells-append, Spells-join,
  Spells-ext, Spells-write_bytes,
}
pub mod Packets
mod Examples

-- The static variables.
pub record Mouse : Type 0 where
  pub x : ℕ
  pub y : ℕ
  pub buttons : ℕ
  pub available : Bool
  pub cycle : ℕ
  pub packet : Arr

-- `(int) (int8_t)` of a byte.
abbrev pub signed_byte : ℕ → ℕ
signed_byte d = if leb 128 d then 2 ^ 32 - 2 ^ 8 + d else d

-- A packet is complete: `& 0xC0` are the two overflow bits.
unfoldable pub take_packet : Mouse → Mouse
take_packet m = if not (m.packet 0 / 2 ^ 6 % 2 ^ 2 == 0) then m else record m {
  x = (m.x + signed_byte (m.packet 1)) % 2 ^ 32;
  y = (m.y + signed_byte (m.packet 2)) % 2 ^ 32;
  buttons = m.packet 0 % 2 ^ 3;
}

-- The switch of `mouse_irq`.
unfoldable pub mouse_byte : (data_byte : ℕ) → Mouse → Mouse
mouse_byte b m =
    if m.cycle == 0
    then (if b / 2 ^ 3 % 2 == 0
        then record m { cycle = 0 }
        else record m { packet = upd m.packet 0 b; cycle = 1 })
    else if m.cycle == 1
    then record m { packet = upd m.packet 1 b; cycle = 2 }
    else if m.cycle == 2
    then take_packet (record m { packet = upd m.packet 2 b; cycle = 0 })
    else m

-- `mouse_irq`, with what the two ports deliver: PS2_OUT_FULL is bit 0 and PS2_AUX_DATA bit 5.
unfoldable pub mouse_irq : (status data_byte : ℕ) → Mouse → Mouse
mouse_irq status b m = if status % 2 == 0 || status / 2 ^ 5 % 2 == 0 then m else mouse_byte b m

-- `mouse_get_state`, `mouse_is_available`
pub get_state : Mouse → ℕ × ℕ × ℕ
get_state m = (m.x, m.y, m.buttons)

pub is_available : Mouse → Bool
is_available m = m.available
