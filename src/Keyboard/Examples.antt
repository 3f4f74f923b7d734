-- ===== src/Keyboard/Examples.antt =====
-- drivers/keyboard.c: typing, and the theorems at concrete keyboards.
use epona_os.Base.{ℕ, ◌+◌, ◌≤◌, ◌≡◌, refl, false, List, [], ◌∷◌, ◌++◌, arith, length}
use mathlib.Core.List.{map as map_list}
use epona_os.Ring.{window}
use epona_os.Keyboard.{
  Keyboard, map, map_shift, ext_map, put_key, is_repeatable_scancode, is_repeatable_ext_scancode,
  extended_key, plain_key, scancode, irq,
}
use epona_os.Keyboard.Queue.{IsValid, contents}
use epona_os.Keyboard.Irq.{Event, interrupt, fetch, run}
use epona_os.Keyboard.Typing.{AllKeys, IsIdle, type_keys, key_code, type_keys_lem}

abbrev idle : Keyboard
idle = record {
  buf = λ _. 0;
  head = 254;
  tail = 254;
  shift = false;
  extended = false;
  pressed = λ _. false;
}

idle-IsValid : IsValid idle
idle-IsValid = record { head_in = omega arith; tail_in = omega arith }

idle-IsIdle : IsIdle idle
idle-IsIdle = record { valid = idle-IsValid; plain = refl; released = λ _. refl }

-- The keys H, I and Enter.
abbrev keys : List ℕ
keys = 0x23 ∷ 0x17 ∷ 0x1c ∷ []

contents-idle : contents idle ≡ []
unfolding contents window
contents-idle = refl

typed : contents (type_keys keys idle) ≡ b'h' ∷ b'i' ∷ 10 ∷ []
unfolding contents window scancode plain_key put_key map is_repeatable_scancode
typed = refl

-- Shift, E0 48 (up), and a held key that is not repeated.
mixed :
    contents (
      run
        (interrupt 1 0x2a
          ∷ interrupt 1 0x23
          ∷ interrupt 1 0x23
          ∷ interrupt 1 0xe0
          ∷ interrupt 1 0x48
          ∷ interrupt 0x21 9
          ∷ [])
        idle)
    ≡ b'H' ∷ 256 ∷ []
unfolding contents window run irq scancode plain_key extended_key put_key map_shift ext_map
    is_repeatable_scancode is_repeatable_ext_scancode
mixed = refl

abbrev events : List Event
events = interrupt 1 0x23 ∷ fetch ∷ fetch ∷ []

keys-AllKeys : AllKeys false keys
unfolding map
keys-AllKeys = omega arith

room : length (contents idle) + length keys ≤ 255
unfolding contents window
room = omega arith

type_keys_lem_example :
    (contents (type_keys keys idle) ≡ contents idle ++ map_list (key_code false) keys)
    × IsIdle (type_keys keys idle)
    × ((type_keys keys idle).shift ≡ false)
type_keys_lem_example = type_keys_lem keys idle keys-AllKeys idle-IsIdle room
