-- ===== src/Keyboard/Typing.antt =====
-- drivers/keyboard.c: what the user types, key by key.
use epona_os.Base.{
  ℕ, ◌+◌, ◌%◌, ◌≤◌, ◌<◌, ◌≡◌, refl, sym, ap, ◌∙◌, ◌≢◌, inl, inr, Bool, true, false, ◌&&◌, ◌||◌,
  List, [], ◌∷◌, ◌++◌, arith, upd, subst, length, length-append, leb, ◌==◌, if◌then◌else◌,
  Bool-cases, all_below, all_below_sound,
}
use mathlib.Core.List.{append_assoc, append-nil, map as map_list}
use epona_os.Keyboard.{
  Keyboard, entry, map, map_shift, put_key, is_repeatable_scancode, plain_key, scancode,
}
use epona_os.Keyboard.Queue.{IsValid, pending, contents, length-contents, put_key_lem}

-- The code of key `sc` under the shift state.
abbrev pub key_code : Bool → ℕ → ℕ
key_code shift sc = entry (if shift then map_shift else map) sc

-- A key with a code that is not a shift key, and whose release is not taken for the prefix 0xE0.
pub record IsKey (shift : Bool) (sc : ℕ) : Type 0 where
  pub small : sc < 128
  pub not_left : sc ≢ 0x2a
  pub not_right : sc ≢ 0x36
  pub not_prefix : sc ≢ 0x60
  pub has_code : key_code shift sc ≢ 0

abbrev pub AllKeys : Bool → List ℕ → Type 0
AllKeys shift [] = Unit
AllKeys shift (sc ∷ scs) = IsKey shift sc × AllKeys shift scs

-- No key is held, and no prefix 0xE0 is pending.
pub record IsIdle (k : Keyboard) : Type 0 where
  pub valid : IsValid k
  pub plain : k.extended ≡ false
  pub released : (sc : ℕ) → k.pressed sc ≡ false

-- Key `sc` goes down, and up again.
abbrev pub tap : ℕ → Keyboard → Keyboard
tap sc k = scancode (sc + 128) (scancode sc k)

abbrev pub type_keys : List ℕ → Keyboard → Keyboard
type_keys [] k = k
type_keys (sc ∷ scs) k = type_keys scs (tap sc k)

module _ (sc : ℕ) (k : Keyboard) (is : IsKey k.shift sc) where
  down-put_key :
      k.extended ≡ false
      → k.pressed sc ≡ false
      → scancode sc k ≡ put_key (key_code k.shift sc) (record k { pressed = upd k.pressed sc true })
  unfolding scancode plain_key
  down-put_key plain up =
      let m : sc % 128 ≡ sc = omega (arith, is.small) in
      let e0 : (sc == 0xe0) ≡ false = ground (arith, is.small) in
      let e1 : (sc == 0x2a || sc == 0x36) ≡ false = ground (arith, is.not_left, is.not_right) in
      let e2 : (sc == 0xaa || sc == 0xb6) ≡ false = ground (arith, is.small) in
      let e3 : leb 128 sc ≡ false = ground (arith, is.small) in
      let e4 : (key_code k.shift sc == 0) ≡ false = ground (arith, is.has_code) in
      simp (e0, plain, e1, e2, e3, m, up, e4)

  up-released :
      (j : Keyboard)
      → j.extended ≡ false
      → scancode (sc + 128) j ≡ record j { pressed = upd j.pressed sc false }
  unfolding scancode plain_key
  up-released j plain =
      let m : (sc + 128) % 128 ≡ sc = omega (arith, is.small) in
      let e0 : (sc + 128 == 0xe0) ≡ false = ground (arith, is.not_prefix) in
      let e1 : (sc + 128 == 0x2a || sc + 128 == 0x36) ≡ false = ground (arith, is.small) in
      let e2 : (sc + 128 == 0xaa || sc + 128 == 0xb6) ≡ false =
        ground (arith, is.not_left, is.not_right) in
      let e3 : leb 128 (sc + 128) ≡ true = ground arith in simp (e0, plain, e1, e2, e3, m)

-- `put_key` writes only the buffer and its end.
put_key_fields :
    (code : ℕ) (k : Keyboard)
    → ((put_key code k).extended ≡ k.extended)
      × ((put_key code k).shift ≡ k.shift)
      × ((put_key code k).pressed ≡ k.pressed)
unfolding put_key
put_key_fields code k = elim (Bool-cases ((k.tail + 1) % 256 == k.head)) [
  | inl e ↦ rw e (refl, refl, refl)
  | inr e ↦ rw e (refl, refl, refl)
]

upd-upd :
    (pressed : ℕ → Bool) (sc i : ℕ) (v : Bool)
    → pressed i ≡ false
    → upd (upd pressed sc v) sc false i ≡ false
upd-upd pressed sc i v e = ground arith

-- What one tap leaves: the code behind those that wait, and an idle keyboard.
record Tapped (k : Keyboard) (code : ℕ) (k' : Keyboard) : Type 0 where
  idle : IsIdle k'
  shift : k'.shift ≡ k.shift
  appended : contents k' ≡ contents k ++ (code ∷ [])

tap-Tapped :
    (sc : ℕ) (k : Keyboard)
    → IsKey k.shift sc
    → IsIdle k
    → length (contents k) < 255
    → Tapped k (key_code k.shift sc) (tap sc k)
unfolding contents
tap-Tapped sc k is idle room =
    let code = key_code k.shift sc in
    let j : Keyboard = record k { pressed = upd k.pressed sc true } in
    let fields = put_key_fields code j in
    let put =
      put_key_lem code j (record { head_in = idle.valid.head_in; tail_in = idle.valid.tail_in }) in
    let free : (pending j == 255) ≡ false = ground (arith, length-contents k) in
    rw
      (
        down-put_key sc k is idle.plain (idle.released sc),
        up-released sc k is (put_key code j) (fields.0 ∙ idle.plain),
      )
      (record {
        idle = record {
          valid = record { head_in = put.0.head_in; tail_in = put.0.tail_in };
          plain = fields.0 ∙ idle.plain;
          released = λ i. rw (fields.2) (upd-upd k.pressed sc i true (idle.released i));
        };
        shift = fields.1;
        appended = rw free at put.1;
      })

-- Tapping keys one after the other on an idle keyboard, with room for their codes, puts exactly
-- their codes, in order and once each, behind those that wait, and leaves the keyboard idle and the
-- shift state as it was.
pub type_keys_lem :
    (scs : List ℕ) (k : Keyboard)
    → AllKeys k.shift scs
    → IsIdle k
    → length (contents k) + length scs ≤ 255
    → (contents (type_keys scs k) ≡ contents k ++ map_list (key_code k.shift) scs)
      × IsIdle (type_keys scs k)
      × ((type_keys scs k).shift ≡ k.shift)
type_keys_lem [] k are idle room = (sym (append-nil (contents k)), idle, refl)
type_keys_lem (sc ∷ scs) k (is, are) idle room =
    let t = tap-Tapped sc k is idle (omega arith) in
    let longer : length (contents (tap sc k)) ≡ length (contents k) + 1 =
      ap (λ l. length l) t.appended ∙ length-append (contents k) (key_code k.shift sc ∷ []) in
    let rest =
      type_keys_lem scs (tap sc k) (subst (λ b. AllKeys b scs) (sym t.shift) are) t.idle
        (omega arith) in
    (
      rest.0
          ∙ ap (λ b. contents (tap sc k) ++ map_list (key_code b) scs) t.shift
          ∙ ap (λ l. l ++ map_list (key_code k.shift) scs) t.appended
          ∙ append_assoc (contents k) (key_code k.shift sc ∷ []) (map_list (key_code k.shift) scs),
      rest.1,
      rest.2 ∙ t.shift,
    )

-- A second press of a key that is held, other than backspace, changes nothing.
pub held_key :
    (sc : ℕ) (k : Keyboard)
    → IsKey k.shift sc
    → k.extended ≡ false
    → k.pressed sc ≡ true
    → sc ≢ 0x0e
    → scancode sc k ≡ k
unfolding scancode plain_key is_repeatable_scancode
held_key sc k is plain held ne =
    let m : sc % 128 ≡ sc = omega (arith, is.small) in
    let e0 : (sc == 0xe0) ≡ false = ground (arith, is.small) in
    let e1 : (sc == 0x2a || sc == 0x36) ≡ false = ground (arith, is.not_left, is.not_right) in
    let e2 : (sc == 0xaa || sc == 0xb6) ≡ false = ground (arith, is.small) in
    let e3 : leb 128 sc ≡ false = ground (arith, is.small) in
    let e4 : (sc == 0x0e) ≡ false = ground (arith, ne) in simp (e0, plain, e1, e2, e3, m, held, e4)

letter_table :
    all_below 128 (λ sc.
      if leb b'a' (entry map sc) && leb (entry map sc) b'z'
      then entry map_shift sc + 32 == entry map sc
      else true)
    ≡ true
unfolding all_below map map_shift
letter_table = refl

-- On every key that types a lower-case letter, the shift key gives the capital of that letter.
pub shift_capital :
    (sc : ℕ)
    → sc < 128
    → b'a' ≤ entry map sc
    → entry map sc ≤ b'z'
    → entry map_shift sc + 32 ≡ entry map sc
shift_capital sc lt lo hi = ground (arith, all_below_sound 128 _ sc letter_table lt)
