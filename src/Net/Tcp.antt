-- ===== src/Net/Tcp.antt =====
-- net/net.c: the TCP connection that fetches a page. A segment that has passed the checks of `handle_tcp` is
-- its flags, its two numbers and its payload.
use epona_os.Base.{
  ℕ, zero, suc, ◌+◌, ◌-◌, ◌*◌, ◌/◌, ◌%◌, ◌^◌, ◌≤◌, ◌<◌, bit_and, bit_or, bit_xor, ◌≡◌, refl, sym,
  ap, ◌∙◌, ◌≢◌, ◌↔◌, ◌⊎◌, inl, inr, Bool, true, false, ◌&&◌, ◌||◌, not, Option, none, some, List,
  [], ◌∷◌, ◌++◌, arith, Arr, upd, upd_self, upd_ne, subst, length, length-append, ltb, leb, ◌==◌,
  ==_iff, if◌then◌else◌, Bool-cases, if_elim, extend_down, Option-cases, ltb→lt, &&_split,
  all_below, all_below_sound,
}
use epona_os.Ring.{take}
use epona_os.Base.{codes, write_bytes}
use epona_os.Net.Wire.{eth_header, eth_p_ip, build_ipv4, proto_tcp, tcp_segment}
use epona_os.Net.State.{Net, transmit, tcp_first_seq}
pub mod Retry
pub mod Stream
pub mod Body
pub mod Page
pub mod Accept
mod Slices
pub mod Handshake

abbrev pub tcp_retry_ticks : ℕ
tcp_retry_ticks = 200000

abbrev pub tcp_max_retries : ℕ
tcp_max_retries = 3

abbrev pub http_body_buf_size : ℕ
http_body_buf_size = 512

abbrev pub flag_fin : ℕ
flag_fin = 0x01

abbrev pub flag_syn : ℕ
flag_syn = 0x02

abbrev pub flag_rst : ℕ
flag_rst = 0x04

abbrev pub flag_psh : ℕ
flag_psh = 0x08

abbrev pub flag_ack : ℕ
flag_ack = 0x10

-- `flags & flag`, for a flag that is a power of two.
abbrev pub has_flag : (flag flags : ℕ) → Bool
has_flag flag flags = flags / flag % 2 == 1

pub send_tcp_segment : (dst_ip : ℕ) (dst_mac : List ℕ) (seq ack flags : ℕ) → List ℕ → Net → Net
send_tcp_segment dst_ip dst_mac seq ack flags payload s =
    let frame =
      eth_header dst_mac s.mac eth_p_ip
      ++ (build_ipv4 s.ip_id s.local_ip dst_ip proto_tcp (20 + length payload)
          ++ tcp_segment s.local_ip dst_ip seq ack flags payload) in
    transmit frame (record s { ip_id = (s.ip_id + 1) % 2 ^ 16 })

-- To the server of the connection, through the gateway.
abbrev pub send : (seq ack flags : ℕ) → List ℕ → Net → Net
send seq ack flags payload s =
    send_tcp_segment s.tcp_remote_ip s.gateway_mac seq ack flags payload s

-- `tcp_http_start`
pub start : ℕ → Net → Net
start dst_ip s =
    if not s.gateway_known || not (s.tcp_state == 0)
    then s
    else send tcp_first_seq 0 flag_syn [] (record s {
      tcp_remote_ip = dst_ip;
      tcp_seq = tcp_first_seq;
      tcp_ack = 0;
      tcp_get_seq = 0;
      tcp_get_len = 0;
      tcp_wait_ticks = 0;
      tcp_retries = 0;
      http_bytes = 0;
      http_chunks = 0;
      tcp_state = 1;
    })

-- The request. Its last 27 bytes are copied from a literal of 25 characters and the end of string, so the
-- last one is whatever follows the literal in memory.
pub get_request : (host : List ℕ) (stray : ℕ) → List ℕ
get_request host stray =
    codes "GET / HTTP/1.0\r\nHost: "
    ++ (take 60 host ++ (codes "\r\nUser-Agent: EponaOS\r\n\r\n" ++ (0 ∷ stray ∷ [])))

-- `tcp_http_send_get`
pub send_get : Net → Net
send_get s =
    let req : List ℕ = get_request s.http_host s.stray in
    let s1 : Net = record s {
      tcp_get_seq = s.tcp_seq;
      tcp_get_len = length req;
      tcp_wait_ticks = 0;
      tcp_retries = 0;
    } in
    let s2 : Net = send s1.tcp_seq s1.tcp_ack (flag_psh + flag_ack) req s1 in
    record s2 { tcp_seq = (s2.tcp_seq + length req) % 2 ^ 32; tcp_state = 3 }

-- `tcp_http_retry_get`
pub retry_get : Net → Net
retry_get s = send s.tcp_get_seq s.tcp_ack (flag_psh + flag_ack) (get_request s.http_host s.stray) s

-- `http_store_body`
pub store_body : List ℕ → Net → Net
store_body bytes s =
    if length bytes == 0 || leb (http_body_buf_size - 1) s.http_body_len
    then s
    else (let space = http_body_buf_size - 1 - s.http_body_len in
        let kept = take space bytes in
        let len = s.http_body_len + length kept in
        record s {
          http_body = upd (write_bytes kept s.http_body_len s.http_body) len 0;
          http_body_len = len;
        })

-- The loop of `http_process_payload`: what follows the first empty line.
unfoldable pub after_headers : List ℕ → Option (List ℕ)
after_headers (a ∷ b ∷ c ∷ d ∷ rest) =
    if a == b'\r' && b == b'\n' && c == b'\r' && d == b'\n'
    then some rest
    else after_headers (b ∷ c ∷ d ∷ rest)
after_headers _ = none

pub store_after : Option (List ℕ) → Net → Net
store_after none s = s
store_after (some rest) s = store_body rest (record s { http_headers_done = true })

-- `http_process_payload`
pub process_payload : List ℕ → Net → Net
process_payload payload s =
    if s.http_headers_done then store_body payload s else store_after (after_headers payload) s

-- `http_print_body_preview`, without the printing.
pub print_body_preview : Net → Net
print_body_preview s =
    if s.http_body_printed || s.http_body_len == 0 then s else record s { http_body_printed = true }

-- A segment with the next bytes.
pub accept : (seq : ℕ) → List ℕ → Net → Net
accept seq payload s0 =
    let s1 : Net = process_payload payload (record s0 {
      http_chunks = (s0.http_chunks + 1) % 2 ^ 32;
      http_bytes = (s0.http_bytes + length payload) % 2 ^ 32;
    }) in
    let s2 : Net = record s1 { tcp_ack = (seq + length payload) % 2 ^ 32 } in
    let s3 : Net = send s2.tcp_seq s2.tcp_ack flag_ack [] s2 in
    print_body_preview (record s3 { http_ok = true; tcp_state = 4 })

-- The end of `handle_tcp`.
pub finish : (flags seq : ℕ) → List ℕ → Net → Net
finish flags seq payload s =
    if has_flag flag_fin flags
    then (let s1 : Net = record s { tcp_ack = (seq + length payload + 1) % 2 ^ 32 } in
        let s2 : Net = print_body_preview (send s1.tcp_seq s1.tcp_ack flag_ack [] s1) in
        record s2 { tcp_state = 6 })
    else s

-- The answer to a SYN-ACK.
pub establish : (seq : ℕ) → Net → Net
establish seq s =
    let s1 : Net = record s {
      tcp_seq = (s.tcp_seq + 1) % 2 ^ 32;
      tcp_ack = (seq + 1) % 2 ^ 32;
      tcp_state = 2;
    } in
    send_get (send s1.tcp_seq s1.tcp_ack flag_ack [] s1)

-- `handle_tcp` behind its checks.
pub segment : (flags seq ack : ℕ) → List ℕ → Net → Net
segment flags seq ack payload s =
    if has_flag flag_rst flags
    then record s { tcp_state = 5 }
    else if s.tcp_state == 1
        && (has_flag flag_syn flags && has_flag flag_ack flags)
        && ack == (s.tcp_seq + 1) % 2 ^ 32
    then establish seq s
    else if leb 3 s.tcp_state && leb s.tcp_state 4 && ltb 0 (length payload)
    then (if not (seq == s.tcp_ack)
        then send s.tcp_seq s.tcp_ack flag_ack [] s
        else finish flags seq payload (accept seq payload s))
    else finish flags seq payload s

-- `tcp_poll_retransmit`
pub poll_retransmit : Net → Net
poll_retransmit s =
    let ticks = (s.tcp_wait_ticks + 1) % 2 ^ 32 in
    let s1 : Net = record s { tcp_wait_ticks = 0; tcp_retries = s.tcp_retries + 1 } in
    if not (s.tcp_state == 1) && not (s.tcp_state == 3)
    then s
    else if ltb ticks tcp_retry_ticks
    then record s { tcp_wait_ticks = ticks }
    else if leb tcp_max_retries s.tcp_retries
    then record s { tcp_wait_ticks = 0; tcp_state = 7 }
    else if s.tcp_state == 1
    then send s1.tcp_seq 0 flag_syn [] s1
    else retry_get s1
