-- ===== src/Net/Examples.antt =====
-- net/net.c: runs of the stack, and the theorems at them.
use epona_os.Base.{
  ℕ, ◌+◌, ◌-◌, ◌≤◌, ◌≡◌, refl, sym, ap, inl, inr, true, false, some, List, [], ◌∷◌, ◌++◌, arith,
  Arr, upd, upd_ne, length, length-append, ◌==◌, if◌then◌else◌, codes, write_bytes,
}
use epona_os.Ring.{take}
use epona_os.Net.Wire.{tcp_checksum_segment, tcp_segment}
use epona_os.Net.State.{Net, tcp_first_seq}
use epona_os.Net.Tcp.{segment, flag_ack, flag_syn, http_body_buf_size, tcp_max_retries}
use epona_os.Net.Tcp.Body.{body, IsValid, SameBeyond}
use epona_os.Net.Tcp.Page.{payloads, flatten, NoBlankLine, page_lem}
use epona_os.Net.Tcp.Stream.{Piece, arrive, HasTaken, arrive_lem, in_order, in_order_lem, total}
use epona_os.Net.Tcp.Retry.{polls, polls_left, gives_up}
use epona_os.Net.Tcp.Handshake.{Connected}
use epona_os.Net.Wire.Checksum.{tcp_checksum_segment-tcp_segment}
use epona_os.Net.Dhcp.{
  Options, no_options, parse_options, add_option, handle_dhcp, dhcp_offer, dhcp_ack, le_word,
}
use epona_os.Net.Dhcp.Parse.{
  encode, store, store_word, store_all, parse_options-encode, parse_options-local,
}
use epona_os.Net.Dhcp.Lease.{Offered, Leased, lease_lem}
use epona_os.Net.Dns.{write_name, skip_name, handle_dns}
use epona_os.Net.Dns.Name.{AllLabels, dotted, wire_name}
use epona_os.Net.Dns.Write.{Fits, write_name-Fits}
use epona_os.Net.Dns.Answer.{IsAnswer, answer_at, skip_name-write_name}
use epona_os.Net.Receive.{http_fetch}
use epona_os.Net.Receive.Fetch.{asked, fetch_lem}

abbrev zero_mem : Arr
zero_mem _ = 0

-- Configured, with the connection open and its headers passed.
abbrev open_net : Net
open_net = record {
  mac = 2 ∷ 0 ∷ 0 ∷ 0 ∷ 0 ∷ 1 ∷ [];
  gateway_mac = 2 ∷ 0 ∷ 0 ∷ 0 ∷ 0 ∷ 9 ∷ [];
  gateway_known = true;
  dhcp_configured = true;
  dhcp_requested = true;
  dns_requested = true;
  tcp_state = 3;
  http_ok = false;
  ip_id = 7;
  icmp_seq = 0;
  dns_host = [];
  local_ip = 10;
  gateway_ip = 11;
  dns_ip = 12;
  dns_answer_ip = 0;
  dhcp_server_ip = 0;
  offered_ip = 0;
  tcp_remote_ip = 13;
  tcp_seq = 500;
  tcp_ack = 1000;
  tcp_get_seq = 0;
  tcp_get_len = 0;
  tcp_wait_ticks = 199999;
  tcp_retries = 3;
  http_bytes = 0;
  http_chunks = 0;
  http_headers_done = true;
  http_body_printed = false;
  http_body = zero_mem;
  http_body_len = 0;
  http_host = [];
  ping_replied = false;
  sent = [];
  stray = 0;
}

abbrev open_valid : IsValid open_net
open_valid = record { fits = omega arith; ended = refl }

abbrev page : List ℕ
page = 3 ∷ 1 ∷ 4 ∷ 1 ∷ 5 ∷ []

abbrev none_yet : HasTaken page [] 1000 0 0 open_net
none_yet = record {
  within = omega arith;
  open_state = inl refl;
  headers = refl;
  valid = open_valid;
  text = refl;
  ack = refl;
  bytes = refl;
}

-- The second half, the first half, the first half again, all of it.
abbrev pieces : List Piece
pieces =
    record { at = 2; size = 3; flags = flag_ack; ack = 500 }
    ∷ record { at = 0; size = 2; flags = flag_ack; ack = 500 }
    ∷ record { at = 0; size = 2; flags = flag_ack; ack = 500 }
    ∷ record { at = 2; size = 3; flags = flag_ack; ack = 500 }
    ∷ []

arrive_lem_example :
    (got : ℕ) × (0 ≤ got) × HasTaken page [] 1000 0 got (arrive page 1000 pieces open_net)
arrive_lem_example =
    arrive_lem page [] 1000 0 (omega arith) pieces 0 open_net
      ((refl, refl), ((refl, refl), ((refl, refl), ((refl, refl), _)))) none_yet

in_order_lem_example :
    HasTaken page [] 1000 0
      (0 + total (2 ∷ 3 ∷ []))
      (arrive page 1000 (in_order flag_ack 500 0 (2 ∷ 3 ∷ [])) open_net)
in_order_lem_example =
    in_order_lem page [] 1000 0 (omega arith) (2 ∷ 3 ∷ []) flag_ack 500 0 open_net refl refl
      (omega arith) none_yet

abbrev before_headers : Net
before_headers = record open_net { http_headers_done = false }

no_line : NoBlankLine (codes "HTTP")
no_line ([], rest, e) = absurd (ground (arith, e))
no_line (c ∷ pre, rest, e) =
    let long = length-append pre (codes "\r\n\r\n" ++ rest) in
    let same : 4 ≡ length (c ∷ pre ++ (codes "\r\n\r\n" ++ rest)) =
      ap (λ (l : List ℕ). length l) e in
    absurd (omega (arith, long, same))

no_line_yet : NoBlankLine (codes "\r\n\r")
no_line_yet (pre, rest, e) =
    let long = length-append pre (codes "\r\n\r\n" ++ rest) in
    let same : 3 ≡ length (pre ++ (codes "\r\n\r\n" ++ rest)) = ap (λ (l : List ℕ). length l) e in
    absurd (omega (arith, long, same))

page_lem_example :
    (payloads (codes "HTTP" ∷ []) before_headers ≡ before_headers)
    × (body (
          payloads
            ((codes "HTTP" ∷ []) ++ (([] ++ (codes "\r\n\r\n" ++ codes "A")) ∷ codes "B" ∷ []))
            before_headers)
        ≡ take (http_body_buf_size - 1) (codes "A" ++ flatten (codes "B" ∷ [])))
    × IsValid (
        payloads
          ((codes "HTTP" ∷ []) ++ (([] ++ (codes "\r\n\r\n" ++ codes "A")) ∷ codes "B" ∷ []))
          before_headers)
    × SameBeyond before_headers (
        payloads
          ((codes "HTTP" ∷ []) ++ (([] ++ (codes "\r\n\r\n" ++ codes "A")) ∷ codes "B" ∷ []))
          before_headers)
page_lem_example =
    page_lem (codes "HTTP" ∷ []) (codes "B" ∷ []) [] (codes "A") before_headers
      (record { fits = omega arith; ended = refl }) refl refl (no_line, _) no_line_yet

gives_up_example :
    ((polls 0 open_net).tcp_state ≡ open_net.tcp_state)
    × ((polls (polls_left open_net) open_net).tcp_state ≡ 7)
    × (length (polls (polls_left open_net) open_net).sent
        ≡ length open_net.sent + (tcp_max_retries - 3))
gives_up_example =
    gives_up 0 open_net (record { state = inr refl; ticks = omega arith; retries = omega arith })
      (omega arith)

tcp_checksum_segment-tcp_segment_example :
    tcp_checksum_segment 10 13 (tcp_segment 10 13 500 1000 flag_ack page) ≡ 0
tcp_checksum_segment-tcp_segment_example =
    tcp_checksum_segment-tcp_segment 10 13 500 1000 flag_ack page (omega arith)
      (omega arith, (omega arith, (omega arith, (omega arith, (omega arith, _))))) (omega arith)

-- An offer: the message type and a server.
abbrev offered : List (ℕ × List ℕ)
offered = (53, dhcp_offer ∷ []) ∷ (54, 10 ∷ 0 ∷ 2 ∷ 2 ∷ []) ∷ []

abbrev acknowledged : List (ℕ × List ℕ)
acknowledged = (53, dhcp_ack ∷ []) ∷ (6, 10 ∷ 0 ∷ 2 ∷ 3 ∷ []) ∷ []

-- A reply with these options.
abbrev reply : List (ℕ × List ℕ) → Arr
reply os i =
    if i == 0
    then 2
    else if i == 4
    then 0xe9
    else if i == 5
    then 0
    else if i == 6
    then 0xc0
    else if i == 7
    then 0xde
    else if i == 236
    then 0x63
    else if i == 237
    then 0x82
    else if i == 238
    then 0x53
    else if i == 239
    then 0x63
    else write_bytes (encode os ++ (255 ∷ [])) 240 zero_mem i

parse_options-encode_example :
    parse_options 20 0 10 240 (reply offered) no_options ≡ some (store_all offered no_options)
unfolding add_option write_bytes
parse_options-encode_example =
    parse_options-encode offered 20 0 10 240 (reply offered) no_options
      ((omega arith, omega arith), ((omega arith, omega arith), _))
      (refl, (refl, (refl, (refl, (refl, (refl, (refl, (refl, (refl, (refl, _))))))))))
      (omega arith) (omega arith)

parse_options-local_example :
    (r : Options) × (parse_options 6 0 5 240 (reply offered) no_options ≡ some r)
    × (parse_options 6 0 5 240 (upd (reply offered) 245 99) no_options ≡ some r)
parse_options-local_example =
    parse_options-local 6 0 5 240 (reply offered) (upd (reply offered) 245 99) no_options
      (omega arith) (omega arith)
      (λ j lt. sym (upd_ne (reply offered) 245 (240 + j) 99 (omega arith)))

abbrev unconfigured : Net
unconfigured = record open_net { dhcp_configured = false; dhcp_requested = false }

lease_lem_example :
    Offered
      (le_word (reply offered) 16)
      (store_all offered no_options)
      unconfigured
      (handle_dhcp 0 260 (reply offered) unconfigured)
    × Leased
        (le_word (reply acknowledged) 16)
        (store_all acknowledged no_options)
        (handle_dhcp 0 260 (reply acknowledged) (handle_dhcp 0 260 (reply offered) unconfigured))
unfolding add_option write_bytes store store_word
lease_lem_example =
    lease_lem 0 0 260 260 (reply offered) (reply acknowledged) offered acknowledged unconfigured
      (record {
        op = refl;
        xid = refl;
        magic = refl;
        codes_ok = ((omega arith, omega arith), ((omega arith, omega arith), _));
        written = (refl, (refl, (refl, (refl, (refl, (refl, (refl, (refl, (refl, (refl, _))))))))));
        room = omega arith;
      })
      (record {
        op = refl;
        xid = refl;
        magic = refl;
        codes_ok = ((omega arith, omega arith), ((omega arith, omega arith), _));
        written = (refl, (refl, (refl, (refl, (refl, (refl, (refl, (refl, (refl, (refl, _))))))))));
        room = omega arith;
      })
      refl refl refl refl

write_name-Fits_example : Fits 4 zero_mem (write_name (codes "abcdef") 0 0 0 4 zero_mem)
write_name-Fits_example = write_name-Fits (codes "abcdef") 4 zero_mem

abbrev labels : List (List ℕ)
labels = codes "ab" ∷ codes "c" ∷ []

labels-AllLabels : AllLabels labels
labels-AllLabels = (
  (omega arith, omega arith, (omega arith, (omega arith, _))),
  ((omega arith, omega arith, (omega arith, _)), _),
)

skip_name-write_name_example :
    (n : ℕ) × (out' : Arr) × (write_name (dotted labels) 0 0 0 240 zero_mem ≡ (some n, out'))
    × (skip_name 0 n 0 out' ≡ some n)
skip_name-write_name_example =
    skip_name-write_name (codes "ab") (codes "c" ∷ []) 240 zero_mem labels-AllLabels (omega arith)
      (omega arith)

-- The answer for `labels`: 6 bytes of name behind the header.
abbrev reply_bytes : List ℕ
reply_bytes =
    0xe9
    ∷ 1
    ∷ 0x81
    ∷ 0x80
    ∷ 0
    ∷ 1
    ∷ 0
    ∷ 1
    ∷ 0
    ∷ 0
    ∷ 0
    ∷ 0
    ∷ (wire_name labels
        ++ (0 ∷ 1 ∷ 0 ∷ 1 ∷ 0xc0 ∷ 12 ∷ 0 ∷ 1 ∷ 0 ∷ 1 ∷ 0 ∷ 0 ∷ 0 ∷ 9 ∷ 0 ∷ 4 ∷ 93 ∷ 184 ∷ 216 ∷ 34
            ∷ []))

abbrev answer_mem : Arr
answer_mem = write_bytes reply_bytes 0 zero_mem

answer_mem-IsAnswer : IsAnswer 0 38 answer_mem labels
unfolding write_bytes
answer_mem-IsAnswer = record {
  id = refl;
  questions = refl;
  answers = refl;
  labels = labels-AllLabels;
  few = omega arith;
  name = (refl, (refl, (refl, (refl, (refl, (refl, _))))));
  pointer = refl;
  kind = refl;
  klass = refl;
  size = refl;
  room = omega arith;
}

fetch_lem_example :
    ((http_fetch (dotted labels) open_net).0 ≡ 0)
    × Connected
        (le_word answer_mem (0 + (answer_at labels + 2) + 10))
        5000
        (asked open_net labels)
        (segment
          (flag_syn + flag_ack)
          5000
          (tcp_first_seq + 1)
          []
          (handle_dns 0 38 answer_mem (http_fetch (dotted labels) open_net).1))
fetch_lem_example =
    fetch_lem (codes "ab") (codes "c" ∷ []) labels open_net 0 38 answer_mem (flag_syn + flag_ack)
      5000 [] refl refl (omega arith) labels-AllLabels (omega arith) answer_mem-IsAnswer refl refl
      refl
