-- ===== src/Mouse/Examples.antt =====
-- drivers/mouse.c: a run, and the theorem at it.
use epona_os.Base.{◌≡◌, refl, true, List, [], ◌∷◌, arith}
use epona_os.Mouse.{Mouse, take_packet, mouse_byte, mouse_irq, get_state}
use epona_os.Mouse.Packets.{Input, packet, noise, bytes_of, irqs, moved, irqs_lem}

abbrev mouse : Mouse
mouse = record { x = 10; y = 0; buttons = 0; available = true; cycle = 0; packet = λ _. 0 }

-- Left button and three to the left, noise, a packet with an overflow.
abbrev inputs : List Input
inputs = packet 9 253 4 ∷ noise 0xf0 ∷ packet 0x48 100 100 ∷ []

moves : get_state (irqs 0x21 (bytes_of inputs) mouse) ≡ (7, 4, 1)
unfolding get_state mouse_irq mouse_byte take_packet
moves = refl

irqs_lem_example :
    ((
      (irqs 0x21 (bytes_of inputs) mouse).x,
      (irqs 0x21 (bytes_of inputs) mouse).y,
      (irqs 0x21 (bytes_of inputs) mouse).buttons,
    )
      ≡ moved inputs 10 0 0)
    × ((irqs 0x21 (bytes_of inputs) mouse).cycle ≡ 0)
irqs_lem_example =
    irqs_lem 0x21 inputs mouse refl refl
      ((refl, omega arith, omega arith), (refl, ((refl, omega arith, omega arith), _))) refl
