-- ===== src/User/Numbers.antt =====
-- user/stdlib.c: what itoa, utoa and itox write.
use epona_os.Base.{
  ℕ, zero, suc, ◌+◌, ◌/◌, ◌%◌, ◌<◌, ◌≡◌, refl, sym, ap, ◌∙◌, ◌≢◌, inl, inr, List, [], ◌∷◌, arith,
  Arr, upd, upd_self, upd_ne, subst, length, ◌==◌, if◌then◌else◌, Bool-cases, bytes_at_ext,
  write_bytes, write_bytes-out, bytes_at-write_bytes,
}
use epona_os.User.{put_digits, put_unsigned}
use epona_os.User.Reverse.{IsText}

-- The digits of a number, the last one first, as many as there are rounds.
unfoldable pub digits : (rounds base : ℕ) (char : ℕ → ℕ) → ℕ → List ℕ
digits zero base char val = []
digits (suc rounds) base char val =
    let rest = digits rounds base char (val / base) in
    if val == 0 then [] else char (val % base) ∷ rest

pub put_digits_lem :
    (rounds base : ℕ) (char : ℕ → ℕ) (val i s : ℕ) (mem : Arr)
    → put_digits rounds base char val i s mem ≡ (
      i + length (digits rounds base char val),
      write_bytes (digits rounds base char val) (s + i) mem,
    )
unfolding put_digits digits write_bytes
put_digits_lem zero base char val i s mem = ap (λ k. (k, mem)) (omega arith)
put_digits_lem (suc rounds) base char val i s mem = elim (Bool-cases (val == 0)) [
  | inl e ↦ let z : i + 0 ≡ i = omega arith in rw e (ap (λ k. (k, mem)) (sym z))
  | inr e ↦
      let m : Arr = upd mem (s + i) (char (val % base)) in
      let ds : List ℕ = digits rounds base char (val / base) in
      let a : i + 1 + length ds ≡ i + suc (length ds) = omega arith in
      let b : s + (i + 1) ≡ s + i + 1 = omega arith in
      rw e (
        put_digits_lem rounds base char (val / base) (i + 1) s m
        ∙ ap (λ k. (k, write_bytes ds (s + (i + 1)) m)) a
        ∙ ap (λ k. (i + suc (length ds), write_bytes ds k m)) b)
]

-- The digits of a number as `put_unsigned` writes them.
unfoldable pub unsigned_digits : (base : ℕ) (char : ℕ → ℕ) → ℕ → List ℕ
unsigned_digits base char val = if val == 0 then b'0' ∷ [] else digits 32 base char val

pub put_unsigned_lem :
    (base : ℕ) (char : ℕ → ℕ) (val s : ℕ) (mem : Arr)
    → put_unsigned base char val s mem
      ≡ (length (unsigned_digits base char val), write_bytes (unsigned_digits base char val) s mem)
unfolding put_unsigned unsigned_digits write_bytes
put_unsigned_lem base char val s mem = elim (Bool-cases (val == 0)) [
  | inl e ↦ rw e refl
  | inr e ↦
      let z : s + 0 ≡ s = omega arith in
      rw e (
        put_digits_lem 32 base char val 0 s mem
        ∙ ap
            (λ k.
              (0 + length (digits 32 base char val), write_bytes (digits 32 base char val) k mem))
            z
        ∙ ap (λ k. (k, write_bytes (digits 32 base char val) s mem)) (omega arith))
]

abbrev pub AllNonzero : List ℕ → Type 0
AllNonzero [] = Unit
AllNonzero (c ∷ cs) = (c ≢ 0) × AllNonzero cs

pub write_bytes-nonzero :
    (cs : List ℕ) (s : ℕ) (mem : Arr) (j : ℕ)
    → AllNonzero cs
    → j < length cs
    → write_bytes cs s mem (s + j) ≢ 0
unfolding write_bytes
write_bytes-nonzero [] s mem j all lt = absurd (omega arith)
write_bytes-nonzero (c ∷ cs) s mem zero (n, all) lt =
    let here : write_bytes cs (s + 1) (upd mem s c) (s + 0) ≡ c =
      write_bytes-out cs (s + 1) (upd mem s c) (s + 0) (inl (omega arith))
      ∙ ap (upd mem s c) (omega arith)
      ∙ upd_self mem s c in
    λ e. n (sym here ∙ e)
write_bytes-nonzero (c ∷ cs) s mem (suc j) (n, all) lt =
    let at : s + suc j ≡ s + 1 + j = omega arith in
    subst (λ k. write_bytes cs (s + 1) (upd mem s c) k ≢ 0) (sym at)
      (write_bytes-nonzero cs (s + 1) (upd mem s c) j all (omega arith))

-- Characters that have been written with the end of string behind them are a text.
pub written-IsText :
    (cs : List ℕ) (s : ℕ) (mem : Arr)
    → AllNonzero cs
    → IsText (upd (write_bytes cs s mem) (s + length cs) 0) s cs
written-IsText cs s mem all =
    let w : Arr = write_bytes cs s mem in
    record {
      chars =
          bytes_at_ext (upd w (s + length cs) 0) w s (length cs)
            (λ j le lt. upd_ne w (s + length cs) j 0 (omega arith))
          ∙ bytes_at-write_bytes cs s mem;
      ended = upd_self w (s + length cs) 0;
      within = λ j lt.
          subst (λ x. x ≢ 0) (sym (upd_ne w (s + length cs) (s + j) 0 (omega arith)))
            (write_bytes-nonzero cs s mem j all lt);
    }
