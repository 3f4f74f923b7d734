-- ===== src/Mouse/Packets.antt =====
-- drivers/mouse.c: what a stream of packets does, with noise between them.
use epona_os.Base.{
  ℕ, ◌+◌, ◌-◌, ◌/◌, ◌%◌, ◌^◌, ◌<◌, ◌≡◌, refl, sym, ap, ◌∙◌, inl, inr, Bool, true, false, ◌||◌, not,
  List, [], ◌∷◌, arith, upd, subst, ltb, ◌==◌, if◌then◌else◌, Bool-cases,
}
use epona_os.Mouse.{Mouse, signed_byte, take_packet, mouse_byte, mouse_irq}

-- What the mouse sends: three bytes, or a byte that cannot be the first of a packet.
pub data Input : Type 0 where
  packet : (flags dx dy : ℕ) → Input
  noise : ℕ → Input

abbrev pub IsInput : Input → Type 0
IsInput (packet flags dx dy) = (flags / 2 ^ 3 % 2 ≡ 1) × (dx < 256) × (dy < 256)
IsInput (noise b) = b / 2 ^ 3 % 2 ≡ 0

abbrev pub AllInput : List Input → Type 0
AllInput [] = Unit
AllInput (i ∷ is) = IsInput i × AllInput is

abbrev pub bytes_of : List Input → List ℕ
bytes_of [] = []
bytes_of (packet flags dx dy ∷ is) = flags ∷ dx ∷ dy ∷ bytes_of is
bytes_of (noise b ∷ is) = b ∷ bytes_of is

-- The interrupts, one for each byte.
abbrev pub irqs : (status : ℕ) → List ℕ → Mouse → Mouse
irqs status [] m = m
irqs status (b ∷ bs) m = irqs status bs (mouse_irq status b m)

-- A movement byte below 128 adds itself to the coordinate; from 128 on it stands for itself less 256.
abbrev pub along : (at d : ℕ) → ℕ
along at d = if ltb d 128 then (at + d) % 2 ^ 32 else (at + 2 ^ 32 - (256 - d)) % 2 ^ 32

along-signed_byte : (at d : ℕ) → d < 256 → along at d ≡ (at + signed_byte d) % 2 ^ 32
along-signed_byte at d lt = ground arith

-- Position and buttons after the inputs: a packet without an overflow bit moves the pointer.
abbrev pub moved : List Input → (x y buttons : ℕ) → ℕ × ℕ × ℕ
moved [] x y buttons = (x, y, buttons)
moved (noise b ∷ is) x y buttons = moved is x y buttons
moved (packet flags dx dy ∷ is) x y buttons =
    let rest = moved is (along x dx) (along y dy) (flags % 2 ^ 3) in
    let same = moved is x y buttons in if not (flags / 2 ^ 6 % 2 ^ 2 == 0) then same else rest

irq_byte :
    (status b : ℕ) (m : Mouse)
    → status % 2 ≡ 1
    → status / 2 ^ 5 % 2 ≡ 1
    → mouse_irq status b m ≡ mouse_byte b m
unfolding mouse_irq
irq_byte status b m full aux =
    let ready : (status % 2 == 0 || status / 2 ^ 5 % 2 == 0) ≡ false = ground (arith, full, aux) in
    rw ready refl

skips :
    (b : ℕ) (m : Mouse) → m.cycle ≡ 0 → b / 2 ^ 3 % 2 ≡ 0 → mouse_byte b m ≡ record m { cycle = 0 }
unfolding mouse_byte
skips b m at noise_bit =
    let first : (m.cycle == 0) ≡ true = ground (arith, at) in
    let skip : (b / 2 ^ 3 % 2 == 0) ≡ true = ground (arith, noise_bit) in rw (first, skip) refl

three_bytes :
    (flags dx dy : ℕ) (m : Mouse)
    → m.cycle ≡ 0
    → flags / 2 ^ 3 % 2 ≡ 1
    → mouse_byte dy (mouse_byte dx (mouse_byte flags m))
      ≡ take_packet (record m { packet = upd (upd (upd m.packet 0 flags) 1 dx) 2 dy; cycle = 0 })
unfolding mouse_byte
three_bytes flags dx dy m at start =
    let first : (m.cycle == 0) ≡ true = ground (arith, at) in
    let begins : (flags / 2 ^ 3 % 2 == 0) ≡ false = ground (arith, start) in rw (first, begins) refl

-- Where the inputs lead from a state.
abbrev Ends : (status : ℕ) (is : List Input) → Mouse → ℕ × ℕ × ℕ → Type 0
Ends status is m to =
    ((
      (irqs status (bytes_of is) m).x,
      (irqs status (bytes_of is) m).y,
      (irqs status (bytes_of is) m).buttons,
    )
      ≡ to)
    × ((irqs status (bytes_of is) m).cycle ≡ 0)

-- When every interrupt finds a byte of the mouse: from a state between two packets, whatever packets arrive,
-- with bytes between them that cannot start one, the position has moved, modulo 2 ^ 32, by the movements of
-- those packets that have no overflow bit, each movement byte d read as d below 128 and as d - 256 from
-- there; the buttons are those of the last such packet, and the driver is between two packets again.
pub irqs_lem :
    (status : ℕ) (is : List Input) (m : Mouse)
    → status % 2 ≡ 1
    → status / 2 ^ 5 % 2 ≡ 1
    → AllInput is
    → m.cycle ≡ 0
    → ((
      (irqs status (bytes_of is) m).x,
      (irqs status (bytes_of is) m).y,
      (irqs status (bytes_of is) m).buttons,
    )
        ≡ moved is m.x m.y m.buttons)
      × ((irqs status (bytes_of is) m).cycle ≡ 0)
unfolding take_packet
irqs_lem status [] m full aux a at = (refl, at)
irqs_lem status (noise b ∷ is) m full aux (n, a) at =
    let step : mouse_irq status b m ≡ record m { cycle = 0 } =
      irq_byte status b m full aux ∙ skips b m at n in
    subst (λ (m' : Mouse). Ends status is m' (moved is m.x m.y m.buttons)) (sym step)
      (irqs_lem status is (record m { cycle = 0 }) full aux a refl)
irqs_lem status (packet flags dx dy ∷ is) m full aux ((p, dx_byte, dy_byte), a) at =
    let m3 : Mouse = record m { packet = upd (upd (upd m.packet 0 flags) 1 dx) 2 dy; cycle = 0 } in
    let one = irq_byte status flags m full aux in
    let two = ap (mouse_irq status dx) one ∙ irq_byte status dx (mouse_byte flags m) full aux in
    let three =
      ap (mouse_irq status dy) two
      ∙ irq_byte status dy (mouse_byte dx (mouse_byte flags m)) full aux in
    let all : mouse_irq status dy (mouse_irq status dx (mouse_irq status flags m))
        ≡ take_packet m3 =
      three ∙ three_bytes flags dx dy m at p in
    let over : Bool = not (flags / 2 ^ 6 % 2 ^ 2 == 0) in
    let new : Mouse = record m3 {
      x = (m.x + signed_byte dx) % 2 ^ 32;
      y = (m.y + signed_byte dy) % 2 ^ 32;
      buttons = flags % 2 ^ 3;
    } in
    subst (λ (m' : Mouse). Ends status is m' (moved (packet flags dx dy ∷ is) m.x m.y m.buttons))
      (sym all)
      (elim (Bool-cases over) [
        | inl lost ↦ rw lost (irqs_lem status is m3 full aux a refl)
        | inr good ↦
            let to : moved is (along m.x dx) (along m.y dy) (flags % 2 ^ 3)
                ≡ moved is new.x new.y new.buttons =
              ap (λ (x : ℕ). moved is x (along m.y dy) (flags % 2 ^ 3))
                (along-signed_byte m.x dx dx_byte)
              ∙ ap (λ (y : ℕ). moved is new.x y (flags % 2 ^ 3))
                  (along-signed_byte m.y dy dy_byte) in
            rw good (
              subst (λ (v : ℕ × ℕ × ℕ). Ends status is new v) (sym to)
                (irqs_lem status is new full aux a refl))
      ])
