-- ===== src/Net/Wire/Checksum.antt =====
-- net/net.c: what is sent with a checksum passes the same check at the receiver.
use epona_os.Base.{
  ℕ, ◌+◌, ◌-◌, ◌*◌, ◌%◌, ◌^◌, ◌≤◌, ◌<◌, ◌≡◌, refl, ap, ◌∙◌, false, ◌||◌, List, [], ◌∷◌, arith,
  length, ltb,
}
use epona_os.Net.Wire.{
  be16, be32, le32, word_sum, fold_carries, checksum16, ipv4_fields, build_ipv4, pseudo_segment,
  tcp_checksum_segment, tcp_fields, tcp_segment,
}

-- The sum of the 16-bit words, with no bound.
pub words : List ℕ → ℕ
words [] = 0
words (a ∷ []) = a * 2 ^ 8
words (a ∷ b ∷ p) = a * 2 ^ 8 + b + words p

abbrev pub AllBytes : List ℕ → Type 0
AllBytes [] = Unit
AllBytes (a ∷ p) = (a < 256) × AllBytes p

word_sum-words : (p : List ℕ) (sum : ℕ) → sum + words p < 2 ^ 32 → word_sum p sum ≡ sum + words p
unfolding words word_sum
word_sum-words [] sum h = omega arith
word_sum-words (a ∷ []) sum h = omega arith
word_sum-words (a ∷ b ∷ p) sum h =
    let e : (sum + (a * 2 ^ 8 + b)) % 2 ^ 32 ≡ sum + (a * 2 ^ 8 + b) = omega arith in
    rw e (omega (arith, word_sum-words p (sum + (a * 2 ^ 8 + b)) (omega arith)))

words-bound : (p : List ℕ) → AllBytes p → words p ≤ 65535 * length p
unfolding words
words-bound [] h = omega arith
words-bound (a ∷ []) h = omega arith
words-bound (a ∷ b ∷ p) (ha, (hb, h)) = omega (arith, words-bound p h)

-- Folding the carries keeps the sum modulo 65535, and ends below 2^16, at 0 only for the sum 0.
pub fold_carries_lem :
    (sum : ℕ)
    → sum < 2 ^ 32
    → (fold_carries 3 sum < 2 ^ 16)
      × (fold_carries 3 sum % 65535 ≡ sum % 65535)
      × (0 < sum → 0 < fold_carries 3 sum)
      × (fold_carries 3 sum ≤ sum)
unfolding fold_carries
fold_carries_lem sum h = ground arith

-- The one's complement of the sum makes the sum with it all ones.
checksum16-zero :
    (p q : List ℕ) → words p + 65535 < 2 ^ 32 → words q ≡ words p + checksum16 p → checksum16 q ≡ 0
unfolding checksum16
checksum16-zero p q h e =
    let a = fold_carries_lem (words p) (omega arith) in
    let sp : word_sum p 0 ≡ words p = word_sum-words p 0 (omega arith) ∙ omega arith in
    let c : (2 ^ 32 - 1 - fold_carries 3 (word_sum p 0)) % 2 ^ 16
        ≡ 65535 - fold_carries 3 (words p) =
      rw sp (omega (arith, a.0)) in
    let total : words q ≡ words p + (65535 - fold_carries 3 (words p)) =
      e ∙ ap (λ x. words p + x) c in
    let b = fold_carries_lem (words q) (omega (arith, total)) in
    let sq : word_sum q 0 ≡ words q = word_sum-words q 0 (omega (arith, total)) ∙ omega arith in
    let full : fold_carries 3 (words q) ≡ 65535 =
      omega (arith, a.0, a.1, a.3, b.0, b.1, b.2, total) in
    rw (sq, full) refl

ipv4-words :
    (total id proto sum src dst : ℕ)
    → sum < 2 ^ 16
    → words (ipv4_fields total id proto sum src dst)
      ≡ words (ipv4_fields total id proto 0 src dst) + sum
unfolding words ipv4_fields be16 le32
ipv4-words total id proto sum src dst h = omega arith

ipv4-words-bound :
    (total id proto src dst : ℕ)
    → proto < 256
    → words (ipv4_fields total id proto 0 src dst) ≤ 655350
unfolding words ipv4_fields be16 le32
ipv4-words-bound total id proto src dst h = omega arith

checksum16-lt : (p : List ℕ) → checksum16 p < 2 ^ 16
unfolding checksum16
checksum16-lt p = omega arith

-- The header that `build_ipv4` makes passes the check that a receiver makes: its checksum is 0.
pub checksum16-build_ipv4 :
    (id src dst proto payload_len : ℕ)
    → proto < 256
    → checksum16 (build_ipv4 id src dst proto payload_len) ≡ 0
unfolding build_ipv4
checksum16-build_ipv4 id src dst proto payload_len h =
    let total = (20 + payload_len) % 2 ^ 16 in
    checksum16-zero (ipv4_fields total id proto 0 src dst) _
      (omega (arith, ipv4-words-bound total id proto src dst h))
      (ipv4-words total id proto _ src dst (checksum16-lt _))

pub length-tcp_fields :
    (seq ack flags sum : ℕ) (payload : List ℕ)
    → length (tcp_fields seq ack flags sum payload) ≡ 20 + length payload
unfolding tcp_fields be16 be32
length-tcp_fields seq ack flags sum payload = omega arith

pseudo-words :
    (src dst seq ack flags sum : ℕ) (payload : List ℕ)
    → sum < 2 ^ 16
    → words (pseudo_segment src dst (tcp_fields seq ack flags sum payload))
      ≡ words (pseudo_segment src dst (tcp_fields seq ack flags 0 payload)) + sum
unfolding words pseudo_segment tcp_fields be16 be32 le32
pseudo-words src dst seq ack flags sum payload h = omega arith

pseudo-words-bound :
    (src dst seq ack flags : ℕ) (payload : List ℕ)
    → flags < 256
    → AllBytes payload
    → words (pseudo_segment src dst (tcp_fields seq ack flags 0 payload))
      ≤ 65535 * (20 + length payload)
unfolding words pseudo_segment tcp_fields be16 be32 le32
pseudo-words-bound src dst seq ack flags payload h b = omega (arith, words-bound payload b)

checked :
    (src dst seq ack flags sum : ℕ) (payload : List ℕ)
    → length payload ≤ 1480
    → tcp_checksum_segment src dst (tcp_fields seq ack flags sum payload)
      ≡ checksum16 (pseudo_segment src dst (tcp_fields seq ack flags sum payload))
unfolding tcp_checksum_segment
checked src dst seq ack flags sum payload le =
    let l = length-tcp_fields seq ack flags sum payload in
    let e : (ltb (length (tcp_fields seq ack flags sum payload)) 20
          || ltb 1500 (length (tcp_fields seq ack flags sum payload)))
        ≡ false =
      ground (arith, l) in
    rw e refl

-- A segment that `send_tcp_segment` makes, of at most 586 bytes of payload, which is what its buffer
-- holds, and one byte of flags, passes the check that
-- `handle_tcp` makes of a segment it receives between the same addresses.
pub tcp_checksum_segment-tcp_segment :
    (src dst seq ack flags : ℕ) (payload : List ℕ)
    → flags < 256
    → AllBytes payload
    → length payload ≤ 586
    → tcp_checksum_segment src dst (tcp_segment src dst seq ack flags payload) ≡ 0
unfolding tcp_segment
tcp_checksum_segment-tcp_segment src dst seq ack flags payload hf hb le =
    let sum = tcp_checksum_segment src dst (tcp_fields seq ack flags 0 payload) in
    let blank = pseudo_segment src dst (tcp_fields seq ack flags 0 payload) in
    let c : sum ≡ checksum16 blank = checked src dst seq ack flags 0 payload (omega arith) in
    let small : sum < 2 ^ 16 = omega (arith, c, checksum16-lt blank) in
    checked src dst seq ack flags sum payload (omega arith)
    ∙ checksum16-zero blank _
        (omega (arith, pseudo-words-bound src dst seq ack flags payload hf hb))
        (pseudo-words src dst seq ack flags sum payload small ∙ ap (λ x. words blank + x) c)
