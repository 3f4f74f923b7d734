-- ===== src/Net/Tcp/Stream.antt =====
-- net/net.c: the connection takes the bytes of the server's stream in order, whatever the network does.
use epona_os.Base.{
  ℕ, ◌+◌, ◌-◌, ◌%◌, ◌^◌, ◌≤◌, ◌<◌, ◌≡◌, refl, sym, ap, ◌∙◌, ◌⊎◌, inl, inr, true, false, ◌&&◌, List,
  [], ◌∷◌, ◌++◌, arith, subst, length, ltb, leb, ◌==◌, Bool-cases,
}
use mathlib.Core.List.{append_assoc}
use epona_os.Ring.{take, drop}
use epona_os.Net.State.{Net, transmit}
use epona_os.Net.Tcp.{
  http_body_buf_size, has_flag, flag_fin, flag_syn, flag_rst, flag_ack, send_tcp_segment, send,
  accept, finish, segment,
}
use epona_os.Net.Tcp.Body.{body, IsValid, take-take}
use epona_os.Net.Tcp.Accept.{accept-Taken}
use epona_os.Net.Tcp.Slices.{take-nil, length-take-drop, length-take_within, drop-end, take_more}

abbrev pub total : List ℕ → ℕ
total [] = 0
total (n ∷ ns) = n + total ns

-- A part of the server's stream: `size` bytes from offset `at` on, in a segment with these flags and this
-- acknowledgement number.
pub record Piece : Type 0 where
  pub at : ℕ
  pub size : ℕ
  pub flags : ℕ
  pub ack : ℕ

abbrev pub AllPlain : List Piece → Type 0
AllPlain [] = Unit
AllPlain (p ∷ ps) =
    ((has_flag flag_rst p.flags ≡ false) × (has_flag flag_fin p.flags ≡ false)) × AllPlain ps

-- The pieces arrive. `isn` is the sequence number of the first byte of the stream.
pub arrive : (stream : List ℕ) (isn : ℕ) → List Piece → Net → Net
arrive stream isn [] s = s
arrive stream isn (p ∷ ps) s =
    arrive stream isn ps
      (segment p.flags ((isn + p.at) % 2 ^ 32) p.ack (take p.size (drop p.at stream)) s)

-- The connection has taken the first `got` bytes of the stream, behind the text `start`.
pub record HasTaken (stream start : List ℕ) (isn first got : ℕ) (s : Net) : Type 0 where
  pub within : got ≤ length stream
  pub open_state : (s.tcp_state ≡ 3) ⊎ (s.tcp_state ≡ 4)
  pub headers : s.http_headers_done ≡ true
  pub valid : IsValid s
  pub text : body s ≡ take (http_body_buf_size - 1) (start ++ take got stream)
  pub ack : s.tcp_ack ≡ (isn + got) % 2 ^ 32
  pub bytes : s.http_bytes ≡ (first + got) % 2 ^ 32

module _ (flags seq ack : ℕ) (p : List ℕ) (s : Net) (r : has_flag flag_rst flags ≡ false)
    (f : has_flag flag_fin flags ≡ false) (o : (s.tcp_state ≡ 3) ⊎ (s.tcp_state ≡ 4)) where
  not_first :
      (s.tcp_state == 1
        && (has_flag flag_syn flags && has_flag flag_ack flags)
        && ack == (s.tcp_seq + 1) % 2 ^ 32)
      ≡ false
  not_first = ground (arith, o)

  -- A segment without payload changes nothing.
  segment_empty : length p ≡ 0 → segment flags seq ack p s ≡ s
  unfolding segment finish
  segment_empty e =
      let t : (leb 3 s.tcp_state && leb s.tcp_state 4 && ltb 0 (length p)) ≡ false = ground arith in
      rw (r, not_first, t, f) refl

  -- A segment that is not the next one is answered by an acknowledgement, and dropped.
  segment_wrong :
      0 < length p
      → (seq == s.tcp_ack) ≡ false
      → segment flags seq ack p s ≡ send s.tcp_seq s.tcp_ack flag_ack [] s
  unfolding segment
  segment_wrong lt ne =
      let t : (leb 3 s.tcp_state && leb s.tcp_state 4 && ltb 0 (length p)) ≡ true =
        ground (arith, o) in
      rw (r, not_first, t, ne) refl

  -- The next one is taken.
  segment_next :
      0 < length p → (seq == s.tcp_ack) ≡ true → segment flags seq ack p s ≡ accept seq p s
  unfolding segment finish
  segment_next lt eq =
      let t : (leb 3 s.tcp_state && leb s.tcp_state 4 && ltb 0 (length p)) ≡ true =
        ground (arith, o) in
      rw (r, not_first, t, eq, f) refl

-- Pieces of these sizes, one behind the other from offset `at` on.
pub in_order : (flags ack at : ℕ) → List ℕ → List Piece
in_order flags ack at [] = []
in_order flags ack at (n ∷ ns) =
    record { at = at; size = n; flags = flags; ack = ack } ∷ in_order flags ack (at + n) ns

module _ (stream start : List ℕ) (isn first : ℕ) (short : length stream < 2 ^ 32) where
  taken_lem :
      (p : List ℕ) (at n got : ℕ) (s : Net)
      → p ≡ take n (drop at stream)
      → 0 < length p
      → (isn + at) % 2 ^ 32 ≡ s.tcp_ack
      → HasTaken stream start isn first got s
      → HasTaken stream start isn first (got + length p) (accept ((isn + at) % 2 ^ 32) p s)
  taken_lem p at n got s slice lt eq h =
      let inside : at < length stream = elim (Bool-cases (ltb at (length stream))) [
        | inl e ↦ ground arith
        | inr e ↦
            let nil : p ≡ [] =
              slice ∙ ap (take n) (drop-end at stream (ground arith)) ∙ take-nil n in
            absurd (omega (arith, ap (λ l. length l) nil))
      ] in
      let same : at ≡ got = omega (arith, h.ack, h.within, short) in
      let t = accept-Taken ((isn + at) % 2 ^ 32) p s h.headers h.valid in
      let len : length p ≡ length (take n (drop at stream)) = ap (λ l. length l) slice in
      let longer : take got stream ++ p ≡ take (got + length p) stream =
        ap (λ l. take got stream ++ l) slice
        ∙ ap (λ k. take got stream ++ take n (drop k stream)) same
        ∙ take_more got n stream
        ∙ ap (λ k. take (got + length (take n (drop k stream))) stream) (sym same)
        ∙ ap (λ k. take (got + k) stream) (sym len) in
      record {
        within = omega (arith, length-take-drop at n stream (omega arith), same, len);
        open_state = inr t.state;
        headers = t.headers;
        valid = t.stored.valid;
        text =
            t.stored.text
            ∙ ap (λ l. take (http_body_buf_size - 1) (l ++ p)) h.text
            ∙ take-take (http_body_buf_size - 1) (start ++ take got stream) p
            ∙ ap (λ l. take (http_body_buf_size - 1) l)
                (append_assoc start (take got stream) p ∙ ap (λ l. start ++ l) longer);
        ack = omega (arith, t.ack, same);
        bytes = omega (arith, t.bytes, h.bytes);
      }

  send-HasTaken :
      (got : ℕ) (s : Net)
      → HasTaken stream start isn first got s
      → HasTaken stream start isn first got (send s.tcp_seq s.tcp_ack flag_ack [] s)
  unfolding send_tcp_segment transmit
  send-HasTaken got s h = record {
    within = h.within;
    open_state = h.open_state;
    headers = h.headers;
    valid = record { fits = h.valid.fits; ended = h.valid.ended };
    text = h.text;
    ack = h.ack;
    bytes = h.bytes;
  }

  -- One piece.
  piece_lem :
      (p : Piece) (got : ℕ) (s : Net)
      → has_flag flag_rst p.flags ≡ false
      → has_flag flag_fin p.flags ≡ false
      → HasTaken stream start isn first got s
      → (got' : ℕ) × (got ≤ got')
        × HasTaken stream start isn first got'
            (segment p.flags ((isn + p.at) % 2 ^ 32) p.ack (take p.size (drop p.at stream)) s)
  piece_lem p got s r f h =
      let seq : ℕ = (isn + p.at) % 2 ^ 32 in
      let part : List ℕ = take p.size (drop p.at stream) in
      elim (Bool-cases (ltb 0 (length part))) [
        | inl some_bytes ↦ elim (Bool-cases (seq == s.tcp_ack)) [
          | inl next_one ↦ (
            got + length part,
            omega arith,
            subst (HasTaken stream start isn first (got + length part))
                (sym
                  (segment_next p.flags seq p.ack part s r f h.open_state (ground arith) next_one))
                (taken_lem part p.at p.size got s refl (ground arith) (ground arith) h),
          )
          | inr other_one ↦ (
            got,
            omega arith,
            subst (HasTaken stream start isn first got)
                (sym (
                  segment_wrong p.flags seq p.ack part s r f h.open_state (ground arith) other_one))
                (send-HasTaken got s h),
          )
        ]
        | inr no_bytes ↦ (
          got,
          omega arith,
          subst (HasTaken stream start isn first got)
              (sym (segment_empty p.flags seq p.ack part s r f h.open_state (ground arith))) h,
        )
      ]

  -- A connection past the headers that has taken a prefix of the server's stream, of less than 2 ^ 32 bytes,
  -- has taken at least that prefix after any pieces of it, without RST and FIN, have arrived, however often, in whatever order and overlapping in whatever way: the
  -- buffer has the first 511 bytes of that prefix, and the count of bytes and the next number agree with it.
  pub arrive_lem :
      (ps : List Piece) (got : ℕ) (s : Net)
      → AllPlain ps
      → HasTaken stream start isn first got s
      → (got' : ℕ) × (got ≤ got') × HasTaken stream start isn first got' (arrive stream isn ps s)
  unfolding arrive
  arrive_lem [] got s all h = (got, omega arith, h)
  arrive_lem (p ∷ ps) got s ((r, f), all) h =
      let one = piece_lem p got s r f h in
      let later =
        arrive_lem ps one.0
          (segment p.flags ((isn + p.at) % 2 ^ 32) p.ack (take p.size (drop p.at stream)) s) all
          one.2 in
      (later.0, omega (arith, one.1, later.1), later.2)

  -- When the next pieces of that stream, without RST and FIN, arrive in order, all of them are taken by a
  -- connection past the headers.
  pub in_order_lem :
      (ns : List ℕ) (flags ack got : ℕ) (s : Net)
      → has_flag flag_rst flags ≡ false
      → has_flag flag_fin flags ≡ false
      → got + total ns ≤ length stream
      → HasTaken stream start isn first got s
      → HasTaken stream start isn first
          (got + total ns)
          (arrive stream isn (in_order flags ack got ns) s)
  unfolding arrive in_order
  in_order_lem [] flags ack got s r f le h =
      let e : got + 0 ≡ got = omega arith in
      subst (λ k. HasTaken stream start isn first k s) (sym e) h
  in_order_lem (n ∷ ns) flags ack got s r f le h =
      let part : List ℕ = take n (drop got stream) in
      let seq : ℕ = (isn + got) % 2 ^ 32 in
      let len : length part ≡ n = length-take_within got n stream (omega arith) in
      let sum : got + n + total ns ≡ got + (n + total ns) = omega arith in
      let one : HasTaken stream start isn first (got + n) (segment flags seq ack part s) =
        elim (Bool-cases (ltb 0 (length part))) [
          | inl some_bytes ↦
              subst (HasTaken stream start isn first (got + n))
                (sym (
                  segment_next flags seq ack part s r f h.open_state (ground arith)
                    (ground (arith, h.ack))))
                (subst (λ k. HasTaken stream start isn first (got + k) (accept seq part s)) len
                  (taken_lem part got n got s refl (ground arith) (sym h.ack) h))
          | inr no_bytes ↦
              let same : got ≡ got + n = ground (arith, len) in
              subst (HasTaken stream start isn first (got + n))
                (sym (segment_empty flags seq ack part s r f h.open_state (ground arith)))
                (subst (λ k. HasTaken stream start isn first k s) same h)
        ] in
      subst
        (λ k.
          HasTaken stream start isn first k
            (arrive stream isn (in_order flags ack (got + n) ns) (segment flags seq ack part s)))
        sum
        (in_order_lem ns flags ack (got + n) (segment flags seq ack part s) r f (omega arith) one)
