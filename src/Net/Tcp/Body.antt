-- ===== src/Net/Tcp/Body.antt =====
-- net/net.c: the page is kept in a buffer of 512 bytes.
use epona_os.Base.{
  ℕ, zero, suc, ◌+◌, ◌-◌, ◌≤◌, ◌<◌, ◌≡◌, refl, sym, ap, ◌∙◌, ◌⊎◌, inl, inr, ◌||◌, List, [], ◌∷◌,
  ◌++◌, arith, Arr, upd, upd_self, upd_ne, length, leb, ◌==◌, Bool-cases, if_elim, bytes_at,
  length-bytes_at, bytes_at_ext, bytes_at-add, write_bytes, write_bytes-out, bytes_at-write_bytes,
}
use mathlib.Core.List.{append_assoc, append-nil}
use epona_os.Ring.{take}
use epona_os.Net.State.{Net}
use epona_os.Net.Tcp.{http_body_buf_size, store_body}

-- What the buffer holds.
abbrev pub body : Net → List ℕ
body s = bytes_at s.http_body 0 s.http_body_len

-- The text fits with its end of string.
pub record IsValid (s : Net) : Type 0 where
  pub fits : s.http_body_len < http_body_buf_size
  pub ended : s.http_body s.http_body_len ≡ 0

-- Nothing but the buffer is written.
abbrev pub SameBeyond : Net → Net → Type 0
SameBeyond s t = (i : ℕ) → http_body_buf_size ≤ i → t.http_body i ≡ s.http_body i

take-append :
    (n : ℕ) (xs ys : List ℕ) → length xs ≤ n → take n (xs ++ ys) ≡ xs ++ take (n - length xs) ys
take-append n [] ys h = ap (λ k. take k ys) (omega arith)
take-append zero (x ∷ xs) ys h = absurd (omega arith)
take-append (suc n) (x ∷ xs) ys h =
    let e : suc n - length (x ∷ xs) ≡ n - length xs = omega arith in
    rw e (ap (λ l. x ∷ l) (take-append n xs ys (omega arith)))

length-take : (n : ℕ) (xs : List ℕ) → length (take n xs) ≤ n
length-take zero xs = omega arith
length-take (suc n) [] = omega arith
length-take (suc n) (x ∷ xs) = omega (arith, length-take n xs)

-- What storing `bytes` in the state `s` does to the buffer.
pub record Stored (bytes : List ℕ) (s t : Net) : Type 0 where
  pub text : body t ≡ take (http_body_buf_size - 1) (body s ++ bytes)
  pub valid : IsValid t
  pub beyond : SameBeyond s t

abbrev kept_bytes : List ℕ → Net → List ℕ
kept_bytes bytes s = take (http_body_buf_size - 1 - s.http_body_len) bytes

pub take-body :
    (bytes : List ℕ) (s : Net)
    → IsValid s
    → take (http_body_buf_size - 1) (body s ++ bytes) ≡ body s ++ kept_bytes bytes s
take-body bytes s v =
    let l = length-bytes_at s.http_body 0 s.http_body_len in
    take-append (http_body_buf_size - 1) (body s) bytes (omega (arith, l, v.fits))
    ∙ ap (λ n. body s ++ take (http_body_buf_size - 1 - n) bytes) l

-- The text in the buffer after a copy behind the first `n` bytes.
copied :
    (mem : Arr) (n : ℕ) (kept : List ℕ)
    → bytes_at (upd (write_bytes kept n mem) (n + length kept) 0) 0 (n + length kept)
      ≡ bytes_at mem 0 n ++ kept
copied mem n kept =
    let new : Arr = upd (write_bytes kept n mem) (n + length kept) 0 in
    let here : 0 + n ≡ n = omega arith in
    let old : bytes_at new 0 n ≡ bytes_at mem 0 n = bytes_at_ext new mem 0 n (λ j le lt.
      upd_ne (write_bytes kept n mem) (n + length kept) j 0 (omega arith)
      ∙ write_bytes-out kept n mem j (inl (omega arith))) in
    let fresh : bytes_at new (0 + n) (length kept) ≡ kept =
      ap (λ i. bytes_at new i (length kept)) here
      ∙ bytes_at_ext new (write_bytes kept n mem) n (length kept)
          (λ j le lt. upd_ne (write_bytes kept n mem) (n + length kept) j 0 (omega arith))
      ∙ bytes_at-write_bytes kept n mem in
    bytes_at-add new 0 n (length kept) ∙ cc (old, fresh)

pub take_none : (bytes : List ℕ) (n : ℕ) → (length bytes ≡ 0) ⊎ (n ≡ 0) → take n bytes ≡ []
take_none bytes zero h = refl
take_none [] (suc n) h = refl
take_none (b ∷ bs) (suc n) h = absurd (omega arith)

pub store_body-Stored : (bytes : List ℕ) (s : Net) → IsValid s → Stored bytes s (store_body bytes s)
unfolding store_body
store_body-Stored bytes s v =
    elim (Bool-cases (length bytes == 0 || leb (http_body_buf_size - 1) s.http_body_len)) [
      | inl full ↦ rw full (record {
        text =
            sym (append-nil (body s))
            ∙ ap (λ l. body s ++ l) (sym (take_none bytes _ (ground (arith, v.fits))))
            ∙ sym (take-body bytes s v);
        valid = v;
        beyond = λ i le. refl;
      })
      | inr room ↦ rw room (record {
        text = copied s.http_body s.http_body_len (kept_bytes bytes s) ∙ sym (take-body bytes s v);
        valid = record {
          fits =
              omega (arith, length-take (http_body_buf_size - 1 - s.http_body_len) bytes, v.fits);
          ended = upd_self (write_bytes (kept_bytes bytes s) s.http_body_len s.http_body) _ 0;
        };
        beyond = λ i le.
            upd_ne (write_bytes (kept_bytes bytes s) s.http_body_len s.http_body) _ i 0
              (omega (arith, length-take (http_body_buf_size - 1 - s.http_body_len) bytes, v.fits))
            ∙ write_bytes-out (kept_bytes bytes s) s.http_body_len s.http_body i (
                inr (
                  omega
                    (arith, length-take (http_body_buf_size - 1 - s.http_body_len) bytes, v.fits)));
      })
    ]

pub take-take : (n : ℕ) (xs ys : List ℕ) → take n (take n xs ++ ys) ≡ take n (xs ++ ys)
take-take zero xs ys = refl
take-take (suc n) [] ys = refl
take-take (suc n) (x ∷ xs) ys = ap (λ l. x ∷ l) (take-take n xs ys)

pub Stored-trans : (a b : List ℕ) (s t u : Net) → Stored a s t → Stored b t u → Stored (a ++ b) s u
Stored-trans a b s t u h k = record {
  text =
      k.text
      ∙ ap (λ l. take (http_body_buf_size - 1) (l ++ b)) h.text
      ∙ take-take (http_body_buf_size - 1) (body s ++ a) b
      ∙ ap (λ l. take (http_body_buf_size - 1) l) (append_assoc (body s) a b);
  valid = k.valid;
  beyond = λ i le. k.beyond i le ∙ h.beyond i le;
}

pub store_body-headers :
    (bytes : List ℕ) (s : Net) → (store_body bytes s).http_headers_done ≡ s.http_headers_done
unfolding store_body
store_body-headers bytes s =
    if_elim (λ (t : Net). t.http_headers_done ≡ s.http_headers_done)
      (length bytes == 0 || leb (http_body_buf_size - 1) s.http_body_len) (λ e. refl) (λ e. refl)
