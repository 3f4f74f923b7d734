-- ===== src/Net/Tcp/Page.antt =====
-- net/net.c: the headers are cut off, and what the buffer holds of the page.
use epona_os.Base.{
  ℕ, ◌-◌, ◌≡◌, refl, sym, ap, ◌∙◌, inl, inr, true, false, ◌&&◌, Option, none, some, List, [], ◌∷◌,
  ◌++◌, arith, subst, ◌==◌, if◌then◌else◌, Bool-cases, bytes_at, codes,
}
use mathlib.Core.List.{append-nil}
use epona_os.Ring.{take}
use epona_os.Net.State.{Net}
use epona_os.Net.Tcp.{http_body_buf_size, store_body, after_headers, store_after, process_payload}
use epona_os.Net.Tcp.Body.{
  body, IsValid, SameBeyond, Stored, take_none, take-body, Stored-trans, store_body-Stored,
  store_body-headers,
}

-- The payloads of a connection, one after the other.
pub payloads : List (List ℕ) → Net → Net
payloads [] s = s
payloads (p ∷ ps) s = payloads ps (process_payload p s)

abbrev pub flatten : List (List ℕ) → List ℕ
flatten [] = []
flatten (p ∷ ps) = p ++ flatten ps

-- The empty line that ends the headers, CR LF CR LF, stands nowhere in `p`.
abbrev pub NoBlankLine : List ℕ → Type 0
NoBlankLine p = ¬ ((pre : List ℕ) × (rest : List ℕ) × (p ≡ pre ++ (codes "\r\n\r\n" ++ rest)))

-- It is in none of them.
abbrev pub AllHeaders : List (List ℕ) → Type 0
AllHeaders [] = Unit
AllHeaders (p ∷ ps) = NoBlankLine p × AllHeaders ps

after_headers-some :
    (p rest : List ℕ)
    → after_headers p ≡ some rest
    → (pre : List ℕ) × (p ≡ pre ++ (codes "\r\n\r\n" ++ rest))
unfolding after_headers
after_headers-some [] rest e = absurd (cc)
after_headers-some (a ∷ []) rest e = absurd (cc)
after_headers-some (a ∷ b ∷ []) rest e = absurd (cc)
after_headers-some (a ∷ b ∷ c ∷ []) rest e = absurd (cc)
after_headers-some (a ∷ b ∷ c ∷ d ∷ q) rest e =
    elim (Bool-cases (a == b'\r' && b == b'\n' && c == b'\r' && d == b'\n')) [
      | inl here ↦ ([], ground arith)
      | inr later ↦
          let r = after_headers-some (b ∷ c ∷ d ∷ q) rest (rw later at e) in
          (a ∷ r.0, ap (λ l. a ∷ l) r.1)
    ]

-- Without the empty line nothing is cut off.
after_headers-none : (p : List ℕ) → NoBlankLine p → after_headers p ≡ none
after_headers-none p no_line = go (after_headers p) refl
  where
    go : (o : Option (List ℕ)) → after_headers p ≡ o → after_headers p ≡ none
    go none e = e
    go (some rest) e =
        let (pre, at) = after_headers-some p rest e in absurd (no_line (pre, rest, at))

NoBlankLine-tail : (c : ℕ) (p : List ℕ) → NoBlankLine (c ∷ p) → NoBlankLine p
NoBlankLine-tail c p h (pre, rest, e) = h (c ∷ pre, rest, ap (λ (l : List ℕ). c ∷ l) e)

after_headers-later :
    (a b c d : ℕ) (q : List ℕ)
    → (a == b'\r' && b == b'\n' && c == b'\r' && d == b'\n') ≡ false
    → after_headers (a ∷ b ∷ c ∷ d ∷ q) ≡ after_headers (b ∷ c ∷ d ∷ q)
unfolding after_headers
after_headers-later a b c d q later = rw later refl

-- The first empty line is where the headers end.
after_headers-first :
    (pre rest : List ℕ)
    → NoBlankLine (pre ++ codes "\r\n\r")
    → after_headers (pre ++ (codes "\r\n\r\n" ++ rest)) ≡ some rest
unfolding after_headers
after_headers-first [] rest h = refl
after_headers-first (a ∷ []) rest h = after_headers-later a 13 10 13 (10 ∷ rest) (ground arith)
after_headers-first (a ∷ b ∷ []) rest h = elim (Bool-cases (a == b'\r' && b == b'\n')) [
  | inl here ↦ absurd (h ([], codes "\r", ground (arith, here)))
  | inr later ↦
      after_headers-later a b 13 10 (13 ∷ 10 ∷ rest) (ground (arith, later))
      ∙ after_headers-first (b ∷ []) rest (NoBlankLine-tail a _ h)
]
after_headers-first (a ∷ b ∷ c ∷ []) rest h =
    after_headers-later a b c 13 (10 ∷ 13 ∷ 10 ∷ rest) (ground arith)
    ∙ after_headers-first (b ∷ c ∷ []) rest (NoBlankLine-tail a _ h)
after_headers-first (a ∷ b ∷ c ∷ d ∷ pre) rest h =
    elim (Bool-cases (a == b'\r' && b == b'\n' && c == b'\r' && d == b'\n')) [
      | inl here ↦ absurd (h ([], pre ++ codes "\r\n\r", ground (arith, here)))
      | inr later ↦
          after_headers-later a b c d (pre ++ (codes "\r\n\r\n" ++ rest)) later
          ∙ after_headers-first (b ∷ c ∷ d ∷ pre) rest (NoBlankLine-tail a _ h)
    ]

pub process_payload-done :
    (p : List ℕ) (s : Net) → s.http_headers_done ≡ true → process_payload p s ≡ store_body p s
unfolding process_payload
process_payload-done p s h =
    ap (λ b. if b then store_body p s else store_after (after_headers p) s) h

process_payload-headers :
    (p : List ℕ) (s : Net) {o : Option (List ℕ)}
    → s.http_headers_done ≡ false
    → after_headers p ≡ o
    → process_payload p s ≡ store_after o s
unfolding process_payload
process_payload-headers p s h e =
    ap (λ b. if b then store_body p s else store_after (after_headers p) s) h
    ∙ ap (λ x. store_after x s) e

payloads-Stored :
    (ps : List (List ℕ)) (s : Net)
    → s.http_headers_done ≡ true
    → IsValid s
    → Stored (flatten ps) s (payloads ps s)
unfolding payloads
payloads-Stored [] s h v = record {
  text =
      sym (append-nil (body s))
      ∙ ap (λ l. body s ++ l) (sym (take_none [] _ (inl refl)))
      ∙ sym (take-body [] s v);
  valid = v;
  beyond = λ i le. refl;
}
payloads-Stored (p ∷ ps) s h v =
    let one = store_body-Stored p s v in
    subst (λ t. Stored (p ++ flatten ps) s (payloads ps t)) (sym (process_payload-done p s h))
      (Stored-trans p (flatten ps) s (store_body p s) _ one
        (payloads-Stored ps (store_body p s) (store_body-headers p s ∙ h) one.valid))

payloads-headers :
    (hs ps : List (List ℕ)) (s : Net)
    → s.http_headers_done ≡ false
    → AllHeaders hs
    → payloads (hs ++ ps) s ≡ payloads ps s
unfolding payloads store_after
payloads-headers [] ps s h a = refl
payloads-headers (p ∷ hs) ps s h (a, as') =
    ap (λ t. payloads (hs ++ ps) t) (process_payload-headers p s h (after_headers-none p a))
    ∙ payloads-headers hs ps s h as'

-- The payloads of a page that starts in an empty buffer. As long as none of them by itself holds the empty
-- line CR LF CR LF that ends the headers, nothing is stored, even if the line is there across two of them.
-- From the first that does hold it on, the buffer has what follows the first such line in it, and all later
-- payloads, in order, up to 511 bytes, with an end of string behind; and no byte outside the buffer is
-- written.
pub page_lem :
    (hs ps : List (List ℕ)) (pre rest : List ℕ) (s : Net)
    → IsValid s
    → s.http_headers_done ≡ false
    → s.http_body_len ≡ 0
    → AllHeaders hs
    → NoBlankLine (pre ++ codes "\r\n\r")
    → (payloads hs s ≡ s)
      × (body (payloads (hs ++ ((pre ++ (codes "\r\n\r\n" ++ rest)) ∷ ps)) s)
          ≡ take (http_body_buf_size - 1) (rest ++ flatten ps))
      × IsValid (payloads (hs ++ ((pre ++ (codes "\r\n\r\n" ++ rest)) ∷ ps)) s)
      × SameBeyond s (payloads (hs ++ ((pre ++ (codes "\r\n\r\n" ++ rest)) ∷ ps)) s)
unfolding payloads store_after
page_lem hs ps pre rest s v h empty a first =
    let p : List ℕ = pre ++ (codes "\r\n\r\n" ++ rest) in
    let e : after_headers p ≡ some rest = after_headers-first pre rest first in
    let s1 : Net = record s { http_headers_done = true } in
    let v1 : IsValid s1 = record { fits = v.fits; ended = v.ended } in
    let one = store_body-Stored rest s1 v1 in
    let t : Net = store_body rest s1 in
    let all =
      Stored-trans rest (flatten ps) s1 t (payloads ps t) one
        (payloads-Stored ps t (store_body-headers rest s1) one.valid) in
    let same : payloads (hs ++ (p ∷ ps)) s ≡ payloads ps t =
      payloads-headers hs (p ∷ ps) s h a
      ∙ ap (λ x. payloads ps x) (process_payload-headers p s h e) in
    let blank : body s ≡ [] = ap (λ n. bytes_at s.http_body 0 n) empty in
    (
      ap (λ l. payloads l s) (sym (append-nil hs)) ∙ payloads-headers hs [] s h a,
      ap (λ (x : Net). body x) same
          ∙ all.text
          ∙ ap (λ l. take (http_body_buf_size - 1) (l ++ (rest ++ flatten ps))) blank,
      subst IsValid (sym same) all.valid,
      λ i le. ap (λ (x : Net). x.http_body i) same ∙ all.beyond i le,
    )
