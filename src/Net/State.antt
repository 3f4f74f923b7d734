-- ===== src/Net/State.antt =====
-- net/net.c: the static variables, the simple entry points, and handing a frame to the card.
use epona_os.Base.{
  ℕ, zero, suc, ◌+◌, ◌%◌, ◌^◌, ◌≡◌, refl, ap, Bool, false, ◌||◌, not, List, [], ◌∷◌, ◌++◌, Arr, upd,
  ◌==◌, if◌then◌else◌,
}
use epona_os.Ring.{take}
use epona_os.Net.Wire.{eth_header, eth_p_ip, build_ipv4, proto_icmp, icmp_echo}

-- `http_body` is the buffer; a host name is the characters before its end. `sent` holds the frames handed
-- to `rtl8139_send`, the newest first. `stray` is the byte that follows the literal of the request in memory.
pub record Net : Type 0 where
  pub mac : List ℕ
  pub gateway_mac : List ℕ
  pub gateway_known : Bool
  pub dhcp_configured : Bool
  pub dhcp_requested : Bool
  pub dns_requested : Bool
  pub tcp_state : ℕ
  pub http_ok : Bool
  pub ip_id : ℕ
  pub icmp_seq : ℕ
  pub dns_host : List ℕ
  pub local_ip : ℕ
  pub gateway_ip : ℕ
  pub dns_ip : ℕ
  pub dns_answer_ip : ℕ
  pub dhcp_server_ip : ℕ
  pub offered_ip : ℕ
  pub tcp_remote_ip : ℕ
  pub tcp_seq : ℕ
  pub tcp_ack : ℕ
  pub tcp_get_seq : ℕ
  pub tcp_get_len : ℕ
  pub tcp_wait_ticks : ℕ
  pub tcp_retries : ℕ
  pub http_bytes : ℕ
  pub http_chunks : ℕ
  pub http_headers_done : Bool
  pub http_body_printed : Bool
  pub http_body : Arr
  pub http_body_len : ℕ
  pub http_host : List ℕ
  pub ping_replied : Bool
  pub sent : List (List ℕ)
  pub stray : ℕ

abbrev pub tcp_first_seq : ℕ
tcp_first_seq = 0xe0020000

-- `rtl8139_send`
unfoldable pub transmit : List ℕ → Net → Net
transmit frame s = record s { sent = frame ∷ s.sent }

-- `net_http_reset`
unfoldable pub http_reset : Net → Net
http_reset s = record s {
  tcp_state = 0;
  http_ok = false;
  http_bytes = 0;
  http_chunks = 0;
  http_headers_done = false;
  http_body_printed = false;
  http_body_len = 0;
  http_body = upd s.http_body 0 0;
  dns_answer_ip = 0;
  tcp_retries = 0;
  tcp_wait_ticks = 0;
  tcp_remote_ip = 0;
  tcp_seq = tcp_first_seq;
  tcp_ack = 0;
  tcp_get_seq = 0;
  tcp_get_len = 0;
}

-- The assignments of `net_init`.
pub clear_all : Net → Net
clear_all s = record s {
  gateway_known = false;
  dhcp_configured = false;
  dhcp_requested = false;
  dns_requested = false;
  tcp_state = 0;
  http_ok = false;
  dns_host = [];
  local_ip = 0;
  gateway_ip = 0;
  dns_ip = 0;
  dns_answer_ip = 0;
  dhcp_server_ip = 0;
  offered_ip = 0;
  tcp_remote_ip = 0;
  tcp_seq = tcp_first_seq;
  tcp_ack = 0;
  tcp_get_seq = 0;
  tcp_get_len = 0;
  tcp_wait_ticks = 0;
  tcp_retries = 0;
  http_bytes = 0;
  http_chunks = 0;
  http_headers_done = false;
  http_body_printed = false;
  http_body_len = 0;
  http_body = upd s.http_body 0 0;
  http_host = [];
  ping_replied = false;
}

-- `net_tcp_busy`
pub tcp_busy : Net → Bool
tcp_busy s = s.tcp_state == 1 || s.tcp_state == 2 || s.tcp_state == 3 || s.tcp_state == 4

pub send_icmp_echo : (dst_ip : ℕ) (dst_mac : List ℕ) → Net → Net
send_icmp_echo dst_ip dst_mac s =
    let frame =
      eth_header dst_mac s.mac eth_p_ip
      ++ (build_ipv4 s.ip_id s.local_ip dst_ip proto_icmp 20 ++ icmp_echo s.icmp_seq) in
    transmit frame
      (record s { ip_id = (s.ip_id + 1) % 2 ^ 16; icmp_seq = (s.icmp_seq + 1) % 2 ^ 16 })

-- `net_ping_send`
pub ping_send : ℕ → Net → Net
ping_send dst_ip s =
    if not s.gateway_known
    then s
    else send_icmp_echo dst_ip s.gateway_mac (record s { ping_replied = false })

-- `strncpy` into a buffer of 64 characters, and the end of string.
pub host_name : List ℕ → List ℕ
host_name host = take 63 host

take_twice : (n : ℕ) (xs : List ℕ) → take n (take n xs) ≡ take n xs
take_twice zero xs = refl
take_twice (suc n) [] = refl
take_twice (suc n) (x ∷ xs) = ap (λ l. x ∷ l) (take_twice n xs)

-- Copying a copy cuts nothing more off.
pub host_name-host_name : (host : List ℕ) → host_name (host_name host) ≡ host_name host
unfolding host_name
host_name-host_name host = take_twice 63 host
