-- ===== src/Net/Wire.antt =====
-- net/net.c: the bytes of headers and their checksums. A frame is the list of its bytes. An IP address is
-- the number whose lowest byte comes first on the wire, as NET_IP makes it.
use epona_os.Base.{
  ℕ, zero, suc, ◌+◌, ◌-◌, ◌*◌, ◌/◌, ◌%◌, ◌^◌, ◌≤◌, ◌<◌, bit_and, bit_or, bit_xor, ◌≡◌, refl, sym,
  ap, ◌∙◌, ◌≢◌, ◌↔◌, ◌⊎◌, inl, inr, Bool, true, false, ◌&&◌, ◌||◌, not, Option, none, some, List,
  [], ◌∷◌, ◌++◌, arith, Arr, upd, upd_self, upd_ne, subst, length, length-append, ltb, leb, ◌==◌,
  ==_iff, if◌then◌else◌, Bool-cases, if_elim, extend_down, Option-cases, ltb→lt, &&_split,
  all_below, all_below_sound,
}
pub mod Checksum

-- Numbers in network order, and an address.
unfoldable pub be16 : ℕ → List ℕ
be16 v = (v / 2 ^ 8 % 2 ^ 8) ∷ (v % 2 ^ 8) ∷ []

unfoldable pub be32 : ℕ → List ℕ
be32 v = (v / 2 ^ 24 % 2 ^ 8) ∷ (v / 2 ^ 16 % 2 ^ 8) ∷ (v / 2 ^ 8 % 2 ^ 8) ∷ (v % 2 ^ 8) ∷ []

unfoldable pub le32 : ℕ → List ℕ
le32 v = (v % 2 ^ 8) ∷ (v / 2 ^ 8 % 2 ^ 8) ∷ (v / 2 ^ 16 % 2 ^ 8) ∷ (v / 2 ^ 24 % 2 ^ 8) ∷ []

-- The first loop of `checksum16` and the odd byte; the two bytes of a word share no bit.
pub word_sum : List ℕ → ℕ → ℕ
word_sum [] sum = sum
word_sum (a ∷ []) sum = (sum + a * 2 ^ 8) % 2 ^ 32
word_sum (a ∷ b ∷ p) sum = word_sum p ((sum + (a * 2 ^ 8 + b)) % 2 ^ 32)

-- The second loop. Two rounds are enough for 32 bits.
pub fold_carries : (fuel sum : ℕ) → ℕ
fold_carries zero sum = sum
fold_carries (suc fuel) sum =
    let rest = fold_carries fuel (sum % 2 ^ 16 + sum / 2 ^ 16) in
    if sum / 2 ^ 16 == 0 then sum else rest

pub checksum16 : List ℕ → ℕ
checksum16 bytes = (2 ^ 32 - 1 - fold_carries 3 (word_sum bytes 0)) % 2 ^ 16

-- `ipv4_hdr_t` as `build_ipv4` fills it.
pub ipv4_fields : (total id proto sum src dst : ℕ) → List ℕ
ipv4_fields total id proto sum src dst =
    0x45
    ∷ 0
    ∷ (be16 total
        ++ (be16 id ++ (be16 0x4000 ++ (64 ∷ proto ∷ (be16 sum ++ (le32 src ++ le32 dst))))))

pub build_ipv4 : (id src dst proto payload_len : ℕ) → List ℕ
build_ipv4 id src dst proto payload_len =
    let total = (20 + payload_len) % 2 ^ 16 in
    ipv4_fields total id proto (checksum16 (ipv4_fields total id proto 0 src dst)) src dst

abbrev pub proto_icmp : ℕ
proto_icmp = 1

abbrev pub proto_tcp : ℕ
proto_tcp = 6

abbrev pub proto_udp : ℕ
proto_udp = 17

-- `udp_hdr_t` and the payload; the checksum 0 means none.
unfoldable pub udp_segment : (src_port dst_port : ℕ) → List ℕ → List ℕ
udp_segment src_port dst_port payload =
    be16 src_port ++ (be16 dst_port ++ (be16 (8 + length payload) ++ (be16 0 ++ payload)))

-- The bytes over which `tcp_checksum_segment` sums.
pub pseudo_segment : (src dst : ℕ) → List ℕ → List ℕ
pseudo_segment src dst segment =
    le32 src
    ++ (le32 dst
        ++ (0 ∷ proto_tcp ∷ (length segment / 2 ^ 8 % 2 ^ 8) ∷ (length segment % 2 ^ 8) ∷ segment))

pub tcp_checksum_segment : (src dst : ℕ) → List ℕ → ℕ
tcp_checksum_segment src dst segment =
    if ltb (length segment) 20 || ltb 1500 (length segment)
    then 0
    else checksum16 (pseudo_segment src dst segment)

abbrev pub tcp_http_port : ℕ
tcp_http_port = 80

abbrev pub tcp_client_port : ℕ
tcp_client_port = 49154

-- `tcp_hdr_t` as `send_tcp_segment` fills it, and the payload. `send_tcp_segment` puts the frame into a buffer of 640
-- bytes without a check, so this is what it sends for a payload of at most 586 bytes; its callers send none, or the
-- request of at most 109 bytes.
pub tcp_fields : (seq ack flags sum : ℕ) → List ℕ → List ℕ
tcp_fields seq ack flags sum payload =
    be16 tcp_client_port
    ++ (be16 tcp_http_port
        ++ (be32 seq
            ++ (be32 ack ++ (0x50 ∷ flags ∷ (be16 4096 ++ (be16 sum ++ (be16 0 ++ payload)))))))

pub tcp_segment : (src dst seq ack flags : ℕ) → List ℕ → List ℕ
tcp_segment src dst seq ack flags payload =
    tcp_fields seq ack flags (tcp_checksum_segment src dst (tcp_fields seq ack flags 0 payload))
      payload

abbrev pub eth_p_ip : ℕ
eth_p_ip = 0x0800

abbrev pub eth_p_arp : ℕ
eth_p_arp = 0x0806

pub eth_header : (dst src : List ℕ) → ℕ → List ℕ
eth_header dst src kind = dst ++ (src ++ be16 kind)

-- `icmp_hdr_t` and the twelve bytes of payload of `send_icmp_echo`.
abbrev pub ping_text : List ℕ
ping_text = b'E' ∷ b'p' ∷ b'o' ∷ b'n' ∷ b'a' ∷ b'O' ∷ b'S' ∷ b' ' ∷ b'p' ∷ b'i' ∷ b'n' ∷ b'g' ∷ []

pub icmp_fields : (seq sum : ℕ) → List ℕ
icmp_fields seq sum = 8 ∷ 0 ∷ (be16 sum ++ (be16 0xe001 ++ (be16 seq ++ ping_text)))

pub icmp_echo : ℕ → List ℕ
icmp_echo seq = icmp_fields seq (checksum16 (icmp_fields seq 0))
