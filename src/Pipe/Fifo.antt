-- ===== src/Pipe/Fifo.antt =====
-- kernel/syscall.c: a pipe is a queue of at most PIPE_BUF_SIZE bytes.
use epona_os.Base.{
  ℕ, zero, suc, ◌+◌, ◌-◌, ◌%◌, ◌≤◌, ◌<◌, ◌≡◌, refl, sym, ap, ◌∙◌, ◌≢◌, inl, inr, List, [], ◌∷◌,
  ◌++◌, arith, Arr, upd, length, ltb, Bool-cases, if_elim,
}
use mathlib.Core.List.{append_assoc, append-nil}
use Prim.Native.Nat.{min}
use epona_os.Ring.{window, length-window, window_ext, window_snoc, take, drop}
use epona_os.Pipe.{Pipe, pipe_buf_size, read, write_loop, write}

pub record IsValid (p : Pipe) : Type 0 where
  pub head_in : p.head < pipe_buf_size
  pub count_in : p.count ≤ pipe_buf_size

-- The bytes that wait in the pipe, oldest first.
unfoldable pub contents : Pipe → List ℕ
contents p = window pipe_buf_size p.buf (p.head + pipe_buf_size - p.count) p.count

pub length-contents : (p : Pipe) → length (contents p) ≡ p.count
unfolding contents
length-contents p = length-window pipe_buf_size p.buf _ p.count

-- One byte taken from the tail.
contents_pop :
    (p : Pipe)
    → IsValid p
    → 0 < p.count
    → contents p
      ≡ p.buf ((p.head + pipe_buf_size - p.count) % pipe_buf_size)
        ∷ contents (record p { count = p.count - 1 })
unfolding contents window
contents_pop p v lt =
    let e : p.count ≡ suc (p.count - 1) = omega arith in
    ap (λ n. window pipe_buf_size p.buf (p.head + pipe_buf_size - p.count) n) e
    ∙ ap
        (λ s.
          p.buf ((p.head + pipe_buf_size - p.count) % pipe_buf_size)
          ∷ window pipe_buf_size p.buf s (p.count - 1))
        (omega arith)

pub contents-nil : (p : Pipe) → p.count ≡ 0 → contents p ≡ []
unfolding contents window
contents-nil p e = rw e

-- On a valid pipe, `pipe_read` of `n` bytes returns the oldest bytes in order, as many as are
-- wanted and there, leaves the others in the pipe in order, and the pipe valid.
pub read_lem :
    (n : ℕ) (p : Pipe)
    → IsValid p
    → ((read n p).0 ≡ take n (contents p))
      × (contents (read n p).1 ≡ drop n (contents p))
      × IsValid (read n p).1
unfolding read
read_lem zero p v = (refl, refl, v)
read_lem (suc n) p v = elim (Bool-cases (ltb 0 p.count)) [
  | inl more ↦
      let q : Pipe = record p { count = p.count - 1 } in
      let ih =
        read_lem n q (record { head_in = v.head_in; count_in = omega (arith, v.count_in) }) in
      rw (more, contents_pop p v (ground arith))
        (ap (λ l. p.buf ((p.head + pipe_buf_size - p.count) % pipe_buf_size) ∷ l) ih.0, ih.1, ih.2)
  | inr empty ↦ rw (empty, contents-nil p (ground arith)) (refl, refl, v)
]

-- One byte put in at the head.
abbrev push : Pipe → ℕ → Pipe
push p b = record p {
  buf = upd p.buf p.head b;
  head = (p.head + 1) % pipe_buf_size;
  count = p.count + 1;
}

contents-push :
    (p : Pipe) (b : ℕ)
    → IsValid p
    → p.count < pipe_buf_size
    → contents (push p b) ≡ contents p ++ (b ∷ [])
unfolding contents
contents-push p b v room =
    let s : ℕ = p.head + pipe_buf_size - p.count in
    let s' : ℕ = (p.head + 1) % pipe_buf_size + pipe_buf_size - (p.count + 1) in
    let new : Arr = upd p.buf p.head b in
    let e : p.count + 1 ≡ suc p.count = omega arith in
    let last : (s + p.count) % pipe_buf_size ≡ p.head = omega (arith, v.head_in) in
    ap (λ n. window pipe_buf_size new s' n) e
    ∙ window_ext pipe_buf_size new new s' s (suc p.count)
        (λ k lt. ap new (omega (arith, v.head_in, v.count_in)))
    ∙ window_snoc pipe_buf_size new s p.count
    ∙ ap (λ l. l ++ (new ((s + p.count) % pipe_buf_size) ∷ []))
        (window_ext pipe_buf_size new p.buf s s p.count (λ k lt.
          let ne : p.head ≢ (s + k) % pipe_buf_size = omega (arith, v.head_in, v.count_in) in
          ground arith))
    ∙ ap (λ x. window pipe_buf_size p.buf s p.count ++ (x ∷ [])) (rw last (ground arith))

push-IsValid : (p : Pipe) (b : ℕ) → IsValid p → p.count < pipe_buf_size → IsValid (push p b)
push-IsValid p b v room = record { head_in = omega arith; count_in = omega arith }

take-nil : (n : ℕ) → take {A = ℕ} n [] ≡ []
take-nil zero = refl
take-nil (suc n) = refl

-- What is true when `n` bytes have been taken already.
abbrev Wrote : Pipe → List ℕ → ℕ → ℕ × Pipe → Type 0
Wrote p src n (m, q) =
    (m ≡ n + min (pipe_buf_size - p.count) (length src))
    × (contents q ≡ contents p ++ take (pipe_buf_size - p.count) src)
    × IsValid q

write_loop_lem : (src : List ℕ) (n : ℕ) (p : Pipe) → IsValid p → Wrote p src n (write_loop src n p)
unfolding write_loop
write_loop_lem [] n p v = (omega arith, rw (take-nil, append-nil), v)
write_loop_lem (b ∷ bs) n p v = elim (Bool-cases (ltb p.count pipe_buf_size)) [
  | inl room ↦
      let lt : p.count < pipe_buf_size = ground arith in
      let e : pipe_buf_size - p.count ≡ suc (pipe_buf_size - (p.count + 1)) = omega arith in
      let ih = write_loop_lem bs (n + 1) (push p b) (push-IsValid p b v lt) in
      rw (room, e)
        (
          omega (arith, ih.0),
          ih.1
              ∙ ap (λ l. l ++ take (pipe_buf_size - (p.count + 1)) bs) (contents-push p b v lt)
              ∙ append_assoc (contents p) (b ∷ []) (take (pipe_buf_size - (p.count + 1)) bs),
          ih.2,
        )
  | inr full ↦
      let e : pipe_buf_size - p.count ≡ 0 = ground (arith, v.count_in) in
      rw (full, e) (omega arith, sym (append-nil (contents p)), v)
]

-- On a valid pipe, `pipe_write` takes as many bytes as there is room for, says how many, appends
-- exactly those in order behind the bytes that wait, and leaves the pipe valid.
pub write_lem :
    (src : List ℕ) (p : Pipe)
    → IsValid p
    → ((write src p).0 ≡ min (pipe_buf_size - p.count) (length src))
      × (contents (write src p).1 ≡ contents p ++ take (pipe_buf_size - p.count) src)
      × IsValid (write src p).1
unfolding write
write_lem src p v = let w = write_loop_lem src 0 p v in (omega (arith, w.0), w.1, w.2)

pub take_all : (n : ℕ) (xs : List ℕ) → length xs ≤ n → take n xs ≡ xs
take_all zero [] h = refl
take_all zero (x ∷ xs) h = absurd (omega arith)
take_all (suc n) [] h = refl
take_all (suc n) (x ∷ xs) h = ap (λ l. x ∷ l) (take_all n xs (omega arith))

pub drop_all : (n : ℕ) (xs : List ℕ) → length xs ≤ n → drop n xs ≡ []
drop_all zero [] h = refl
drop_all zero (x ∷ xs) h = absurd (omega arith)
drop_all (suc n) [] h = refl
drop_all (suc n) (x ∷ xs) h = drop_all n xs (omega arith)

-- What fits into an empty pipe comes out of it whole, in order, and leaves it empty.
pub read-write :
    (src : List ℕ) (p : Pipe)
    → IsValid p
    → p.count ≡ 0
    → length src ≤ pipe_buf_size
    → ((read pipe_buf_size (write src p).1).0 ≡ src)
      × ((read pipe_buf_size (write src p).1).1.count ≡ 0)
read-write src p v empty fits =
    let w = write_lem src p v in
    let r = read_lem pipe_buf_size (write src p).1 w.2 in
    let got : contents (write src p).1 ≡ src =
      w.1 ∙ rw (contents-nil p empty) (take_all (pipe_buf_size - p.count) src (omega arith)) in
    (
      r.0 ∙ ap (λ l. take pipe_buf_size l) got ∙ take_all pipe_buf_size src fits,
      sym (length-contents (read pipe_buf_size (write src p).1).1)
          ∙ ap (λ l. length l)
              (r.1 ∙ ap (λ l. drop pipe_buf_size l) got ∙ drop_all pipe_buf_size src fits),
    )

-- No more than what is asked for.
pub length-read : (n : ℕ) (p : Pipe) → length (read n p).0 ≤ n
unfolding read
length-read zero p = omega arith
length-read (suc n) p =
    if_elim (λ (r : List ℕ × Pipe). length r.0 ≤ suc n) (ltb 0 p.count)
      (λ e. omega (arith, length-read n (record p { count = p.count - 1 }))) (λ e. omega arith)
