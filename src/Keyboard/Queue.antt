-- ===== src/Keyboard/Queue.antt =====
-- drivers/keyboard.c: the key buffer is a queue of at most 255 codes, none of them 0.
use epona_os.Base.{
  ℕ, suc, ◌+◌, ◌-◌, ◌%◌, ◌<◌, ◌≡◌, refl, ap, ◌∙◌, ◌≢◌, ◌⊎◌, inl, inr, true, false, List, [], ◌∷◌,
  ◌++◌, arith, Arr, upd, upd_self, upd_ne, length, ◌==◌, ==_iff, if◌then◌else◌, Bool-cases,
}
use epona_os.Ring.{window, length-window, window_ext, window_snoc, window_pop}
use epona_os.Keyboard.{Keyboard, keybuf_size, put_key, getc}

pub record IsValid (k : Keyboard) : Type 0 where
  pub head_in : k.head < keybuf_size
  pub tail_in : k.tail < keybuf_size

-- How many codes wait, and which, oldest first.
abbrev pub pending : Keyboard → ℕ
pending k = (k.tail + keybuf_size - k.head) % keybuf_size

unfoldable pub contents : Keyboard → List ℕ
contents k = window keybuf_size k.buf k.head (pending k)

pub length-contents : (k : Keyboard) → length (contents k) ≡ pending k
unfolding contents
length-contents k = length-window keybuf_size k.buf k.head (pending k)

-- `put_key` appends the code behind those that wait, unless 255 wait: then it drops the code and
-- changes nothing. The buffer stays valid.
pub put_key_lem :
    (code : ℕ) (k : Keyboard)
    → IsValid k
    → IsValid (put_key code k)
      × (contents (put_key code k)
          ≡ (if pending k == 255 then contents k else contents k ++ (code ∷ [])))
unfolding put_key contents window
put_key_lem code k v = elim (Bool-cases ((k.tail + 1) % keybuf_size == k.head)) [
  | inl full ↦
      let e : (pending k == 255) ≡ true = ground (arith, v.head_in, v.tail_in) in
      rw (full, e) (v, refl)
  | inr room ↦
      let e : (pending k == 255) ≡ false = ground (arith, v.head_in, v.tail_in) in
      rw (room, e)
        (record { head_in = v.head_in; tail_in = omega arith }, appended k v (ground arith))
]
  where
    appended :
        (k : Keyboard)
        → IsValid k
        → (k.tail + 1) % keybuf_size ≢ k.head
        → window keybuf_size
            (upd k.buf k.tail code)
            k.head
            (((k.tail + 1) % keybuf_size + keybuf_size - k.head) % keybuf_size)
          ≡ window keybuf_size k.buf k.head (pending k) ++ (code ∷ [])
    appended k v ne =
        let new : Arr = upd k.buf k.tail code in
        let e : ((k.tail + 1) % keybuf_size + keybuf_size - k.head) % keybuf_size
            ≡ suc (pending k) =
          omega (arith, v.head_in, v.tail_in) in
        let last : (k.head + pending k) % keybuf_size ≡ k.tail =
          omega (arith, v.head_in, v.tail_in) in
        ap (λ n. window keybuf_size new k.head n) e
        ∙ window_snoc keybuf_size new k.head (pending k)
        ∙ ap (λ l. l ++ (new ((k.head + pending k) % keybuf_size) ∷ []))
            (window_ext keybuf_size new k.buf k.head k.head (pending k) (λ i lt.
              upd_ne k.buf k.tail ((k.head + i) % keybuf_size) code
                (omega (arith, v.head_in, v.tail_in))))
        ∙ ap (λ x. window keybuf_size k.buf k.head (pending k) ++ (x ∷ []))
            (ap new last ∙ upd_self k.buf k.tail code)

contents-nil : (k : Keyboard) → pending k ≡ 0 → contents k ≡ []
unfolding contents window
contents-nil k e = rw e

-- `keyboard_getc` returns 0 and changes nothing when no code waits; otherwise it returns the oldest
-- code and leaves the others. The buffer stays valid.
pub getc_lem :
    (k : Keyboard)
    → IsValid k
    → IsValid (getc k).1
      × (((contents k ≡ []) × (getc k ≡ (0, k))) ⊎ (contents k ≡ (getc k).0 ∷ contents (getc k).1))
unfolding getc contents
getc_lem k v = elim (Bool-cases (k.head == k.tail)) [
  | inl empty ↦
      rw empty
        (v, inl (contents-nil k (omega (arith, v.head_in, (==_iff k.head k.tail).0 empty)), refl))
  | inr more ↦ rw more (
    record { head_in = omega arith; tail_in = v.tail_in },
    inr (popped (ground (arith, v.head_in, v.tail_in))),
  )
]
  where
    popped :
        0 < pending k
        → contents k ≡ k.buf k.head ∷ contents (record k { head = (k.head + 1) % keybuf_size })
    popped lt =
        let rest : pending k - 1
            ≡ (k.tail + keybuf_size - (k.head + 1) % keybuf_size) % keybuf_size =
          omega (arith, v.head_in, v.tail_in) in
        let first : k.head % keybuf_size ≡ k.head = omega (arith, v.head_in) in
        window_pop keybuf_size k.buf k.head (pending k) lt
        ∙ ap (λ i. k.buf i ∷ window keybuf_size k.buf (k.head + 1) (pending k - 1)) first
        ∙ ap (λ l. k.buf k.head ∷ l)
            (ap (λ n. window keybuf_size k.buf (k.head + 1) n) rest
              ∙ window_ext keybuf_size k.buf k.buf (k.head + 1) ((k.head + 1) % keybuf_size) _
                  (λ i q. ap k.buf (omega arith)))
