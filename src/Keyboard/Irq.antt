-- ===== src/Keyboard/Irq.antt =====
-- drivers/keyboard.c: what one keyboard interrupt does to the key buffer and to the keys that count
-- as pressed.
use epona_os.Base.{
  ℕ, ◌/◌, ◌%◌, ◌≡◌, refl, sym, ap, ◌∙◌, ◌≢◌, ◌↔◌, ◌⊎◌, inl, inr, true, false, ◌&&◌, ◌||◌, not, List,
  [], ◌∷◌, ◌++◌, arith, upd, subst, leb, ◌==◌, if◌then◌else◌, Bool-cases, if_elim,
}
use epona_os.Keyboard.{
  Keyboard, entry, map, map_shift, ext_map, put_key, is_repeatable_scancode,
  is_repeatable_ext_scancode, extended_key, plain_key, scancode, irq, getc,
}
use epona_os.Keyboard.Queue.{IsValid, pending, contents, put_key_lem, getc_lem}

-- None of the codes that wait is 0, the answer of `keyboard_getc` for an empty buffer.
abbrev pub Nonzero : List ℕ → Type 0
Nonzero [] = Unit
Nonzero (x ∷ xs) = (x ≢ 0) × Nonzero xs

Nonzero-snoc : (xs : List ℕ) (c : ℕ) → Nonzero xs → c ≢ 0 → Nonzero (xs ++ (c ∷ []))
Nonzero-snoc [] c h ne = (ne, tt)
Nonzero-snoc (x ∷ xs) c h ne = (h.0, Nonzero-snoc xs c h.1 ne)

-- `k'` is valid, and has the codes that wait in `k`, or one more behind them, which is not 0.
pub record Adds (k k' : Keyboard) : Type 0 where
  pub valid : IsValid k'
  pub effect :
      (contents k' ≡ contents k) ⊎ ((c : ℕ) × (c ≢ 0) × (contents k' ≡ contents k ++ (c ∷ [])))

put_key-Adds : (code : ℕ) (k : Keyboard) → IsValid k → code ≢ 0 → Adds k (put_key code k)
put_key-Adds code k v ne =
    let (valid, e) = put_key_lem code k v in
    elim (Bool-cases (pending k == 255)) [
      | inl full ↦ record { valid = valid; effect = inl (rw full at e) }
      | inr room ↦ record { valid = valid; effect = inr (code, ne, rw room at e) }
    ]

quiet :
    (k k' : Keyboard) → IsValid k → k'.head ≡ k.head → k'.tail ≡ k.tail → k'.buf ≡ k.buf → Adds k k'
unfolding contents
quiet k k' v h t b = record {
  valid = record { head_in = omega arith; tail_in = omega arith };
  effect = inl (rw (h, t, b));
}

-- The last step of both paths: put in the code of the table, if it has one.
emit-Adds : (code : ℕ) (k : Keyboard) → IsValid k → Adds k (if code == 0 then k else put_key code k)
emit-Adds code k v =
    if_elim (Adds k) _ (λ e. quiet k k v refl refl refl) (λ e. put_key-Adds code k v (ground arith))

-- `Adds` sees only the codes that wait.
rebase : (k j k' : Keyboard) → contents j ≡ contents k → Adds j k' → Adds k k'
rebase k j k' e a = record { valid = a.valid; effect = rw (← e) a.effect }

plain_key-Adds : (sc : ℕ) (k : Keyboard) → IsValid k → Adds k (plain_key sc k)
unfolding plain_key contents
plain_key-Adds sc k v =
    let pressed = upd k.pressed (sc % 128) true in
    let k' : Keyboard = record k { pressed = pressed } in
    if_elim (Adds k) (leb 128 sc) (λ up. quiet k _ v refl refl refl)
      λ down.
        if_elim (Adds k) (k.pressed (sc % 128) && not (is_repeatable_scancode (sc % 128)))
          (λ held. quiet k k v refl refl refl)
          λ new. rebase k k' _ refl (
            emit-Adds (entry (if k.shift then map_shift else map) (sc % 128)) k'
              (record { head_in = v.head_in; tail_in = v.tail_in }))

extended_key-Adds : (sc : ℕ) (k : Keyboard) → IsValid k → Adds k (extended_key sc k)
unfolding extended_key contents
extended_key-Adds sc k v =
    let k' : Keyboard = record k { extended = false; pressed = upd k.pressed (sc % 128) true } in
    if_elim (Adds k) (leb 128 sc) (λ up. quiet k _ v refl refl refl)
      λ down.
        if_elim (Adds k) (k.pressed (sc % 128) && not (is_repeatable_ext_scancode (sc % 128)))
          (λ held. quiet k _ v refl refl refl)
          λ new. rebase k k' _ refl (
            emit-Adds (ext_map (sc % 128)) k' (record { head_in = v.head_in; tail_in = v.tail_in }))

-- Whatever the status and the byte, an interrupt on a valid key buffer leaves it valid and either
-- does not change the codes that wait or puts one code, which is not 0, behind them.
pub irq-Adds : (status sc : ℕ) (k : Keyboard) → IsValid k → Adds k (irq status sc k)
unfolding irq scancode
irq-Adds status sc k v =
    if_elim (Adds k) (status % 2 == 0) (λ _. quiet k k v refl refl refl)
      λ _.
        if_elim (Adds k) (status / 32 % 2 == 1) (λ _. quiet k k v refl refl refl)
          λ _.
            if_elim (Adds k) (sc == 0xe0) (λ _. quiet k _ v refl refl refl)
              λ _.
                if_elim (Adds k) k.extended (λ _. extended_key-Adds sc k v)
                  λ _.
                    if_elim (Adds k) (sc == 0x2a || sc == 0x36) (λ _. quiet k _ v refl refl refl)
                      λ _.
                        if_elim (Adds k) (sc == 0xaa || sc == 0xb6)
                          (λ _. quiet k _ v refl refl refl) λ _. plain_key-Adds sc k v

-- A run of the driver: interrupts with their status and byte, and reads of the buffer.
pub data Event : Type 0 where
  interrupt : (status sc : ℕ) → Event
  fetch : Event

unfoldable pub run : List Event → Keyboard → Keyboard
run [] k = k
run (interrupt status sc ∷ es) k = run es (irq status sc k)
run (fetch ∷ es) k = run es (getc k).1

Nonzero-Adds : (k k' : Keyboard) → Nonzero (contents k) → Adds k k' → Nonzero (contents k')
Nonzero-Adds k k' h a = elim a.effect [
  | inl same ↦ subst Nonzero (sym same) h
  | inr (c, ne, e) ↦ subst Nonzero (sym e) (Nonzero-snoc (contents k) c h ne)
]

run-IsValid :
    (es : List Event) (k : Keyboard)
    → IsValid k
    → Nonzero (contents k)
    → IsValid (run es k) × Nonzero (contents (run es k))
unfolding run
run-IsValid [] k v h = (v, h)
run-IsValid (interrupt status sc ∷ es) k v h =
    let a = irq-Adds status sc k v in
    run-IsValid es (irq status sc k) a.valid (Nonzero-Adds k (irq status sc k) h a)
run-IsValid (fetch ∷ es) k v h =
    let g = getc_lem k v in
    run-IsValid es (getc k).1 g.0
      (elim g.1 [ inl (empty, same) ↦ rw same h | inr e ↦ (rw e at h).1 ])

cons_ne_nil : {x : ℕ} {xs : List ℕ} → x ∷ xs ≢ []
cons_ne_nil h = cc

-- From a valid buffer without the code 0, after any interrupts and reads, the answer 0 of
-- `keyboard_getc` means that no code waits, and only that.
pub getc_zero :
    (es : List Event) (k : Keyboard)
    → IsValid k
    → Nonzero (contents k)
    → ((getc (run es k)).0 ≡ 0) ↔ (contents (run es k) ≡ [])
getc_zero es k v h = after (run es k) (run-IsValid es k v h)
  where
    after : (j : Keyboard) → IsValid j × Nonzero (contents j) → ((getc j).0 ≡ 0) ↔ (contents j ≡ [])
    after j (v, h) = elim (getc_lem j v).1 [
      | inl (empty, same) ↦ (λ _. empty, λ _. ap (λ (r : ℕ × Keyboard). r.0) same)
      | inr e ↦
          let nz = rw e at h in
          (λ z. absurd (nz.0 z), λ empty. absurd (cons_ne_nil (sym e ∙ empty)))
    ]
