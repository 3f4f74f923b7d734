-- ===== src/Net/Receive.antt =====
-- net/net.c: what comes in from the card, and the entry points. A frame of `len` bytes stands in memory from
-- address 0 on; behind it is whatever the receive buffer holds there.
use epona_os.Base.{
  ℕ, zero, suc, ◌+◌, ◌-◌, ◌*◌, ◌/◌, ◌%◌, ◌^◌, ◌≤◌, ◌<◌, bit_and, bit_or, bit_xor, ◌≡◌, refl, sym,
  ap, ◌∙◌, ◌≢◌, ◌↔◌, ◌⊎◌, inl, inr, Bool, true, false, ◌&&◌, ◌||◌, not, Option, none, some, List,
  [], ◌∷◌, ◌++◌, arith, Arr, upd, upd_self, upd_ne, subst, length, length-append, ltb, leb, ◌==◌,
  ==_iff, if◌then◌else◌, Bool-cases, if_elim, extend_down, Option-cases, ltb→lt, &&_split,
  all_below, all_below_sound, bytes_at, length-bytes_at, bytes_at_ext, bytes_at-add, codes,
  write_bytes, write_bytes-out, bytes_at-write_bytes, Spells, Spells-append, Spells-join,
  Spells-ext, Spells-write_bytes,
}
use epona_os.Net.Wire.{
  eth_p_ip, eth_p_arp, proto_icmp, proto_tcp, proto_udp, tcp_checksum_segment, tcp_http_port,
  tcp_client_port,
}
use epona_os.Net.State.{Net, http_reset, clear_all, send_icmp_echo, host_name}
use epona_os.Net.Tcp.{segment, poll_retransmit}
use epona_os.Net.Dns.{dns_query, handle_dns, dns_port, dns_client_port}
use epona_os.Net.Dhcp.{handle_dhcp, send_dhcp, dhcp_discover, be_half, be_word, le_word}
pub mod Guards
pub mod Fetch

-- The length of `eth_hdr_t`: where the IPv4 header or the ARP packet starts.
abbrev pub eth_len : ℕ
eth_len = 14

pub handle_tcp : (ihl ip_total : ℕ) → Arr → Net → Net
handle_tcp ihl ip_total mem s =
    let tcp = eth_len + ihl in
    let tcp_hlen = mem (tcp + 12) / 16 * 4 in
    let src = le_word mem (eth_len + 12) in
    let dst = le_word mem (eth_len + 16) in
    if not (dst == s.local_ip) || not (src == s.tcp_remote_ip)
    then s
    else if ltb ip_total (ihl + 20)
    then s
    else if not (be_half mem tcp == tcp_http_port) || not (be_half mem (tcp + 2) == tcp_client_port)
    then s
    else if ltb tcp_hlen 20 || ltb ip_total (ihl + tcp_hlen)
    then s
    else if not (tcp_checksum_segment src dst (bytes_at mem tcp (ip_total - ihl)) == 0)
    then s
    else segment (mem (tcp + 13)) (be_word mem (tcp + 4)) (be_word mem (tcp + 8))
        (bytes_at mem (tcp + tcp_hlen) (ip_total - ihl - tcp_hlen)) s

pub handle_udp : (ihl ip_total : ℕ) → Arr → Net → Net
handle_udp ihl ip_total mem s =
    let udp = eth_len + ihl in
    let src_port = be_half mem udp in
    let dst_port = be_half mem (udp + 2) in
    let udp_len = be_half mem (udp + 4) in
    if ltb ip_total (ihl + 8)
    then s
    else if ltb udp_len 8
    then s
    else if src_port == 67 && dst_port == 68
    then handle_dhcp (udp + 8) (udp_len - 8) mem s
    else if src_port == dns_port && dst_port == dns_client_port
    then handle_dns (udp + 8) (udp_len - 8) mem s
    else s

pub handle_icmp : (ihl ip_total : ℕ) → Arr → Net → Net
handle_icmp ihl ip_total mem s =
    if not (le_word mem (eth_len + 16) == s.local_ip) || not (mem (eth_len + 9) == proto_icmp)
    then s
    else if ltb ip_total (ihl + 8)
    then s
    else if mem (eth_len + ihl) == 0
    then record s { ping_replied = true }
    else s

pub handle_ipv4 : (len : ℕ) → Arr → Net → Net
handle_ipv4 len mem s =
    let ihl = mem eth_len % 16 * 4 in
    let ip_total = be_half mem (eth_len + 2) in
    let proto = mem (eth_len + 9) in
    if ltb len (eth_len + 20)
    then s
    else if not (mem eth_len / 16 == 4)
    then s
    else if ltb ihl 20 || ltb len (eth_len + ihl)
    then s
    else if ltb ip_total ihl
    then s
    else if proto == proto_udp
    then handle_udp ihl ip_total mem s
    else if proto == proto_tcp
    then handle_tcp ihl ip_total mem s
    else handle_icmp ihl ip_total mem s

pub handle_arp : (len : ℕ) → Arr → Net → Net
handle_arp len mem s =
    let spa = le_word mem (eth_len + 14) in
    let mac = bytes_at mem (eth_len + 8) 6 in
    let known : Net =
      send_icmp_echo s.gateway_ip mac (record s { gateway_mac = mac; gateway_known = true }) in
    if ltb len (eth_len + 28)
    then s
    else if be_half mem (eth_len + 6) == 2 && spa == s.gateway_ip
    then (if not known.dns_requested then dns_query (codes "example.com") known else known)
    else s

pub mac_is_broadcast : List ℕ → Bool
mac_is_broadcast [] = true
mac_is_broadcast (b ∷ bs) =
    let rest = mac_is_broadcast bs in if not (b == 0xff) then false else rest

-- The loop that compares the destination with `g_mac`.
pub is_ours : (dst mac : List ℕ) → Bool
is_ours (d ∷ ds) (m ∷ ms) = d == m && is_ours ds ms
is_ours _ _ = true

-- `net_handle_packet`
pub handle_packet : (len : ℕ) → Arr → Net → Net
handle_packet len mem s =
    let kind = be_half mem 12 in
    let dst = bytes_at mem 0 6 in
    if ltb len eth_len
    then s
    else if kind == eth_p_arp
    then handle_arp len mem s
    else if kind == eth_p_ip
    then (if not (mac_is_broadcast dst) && not (is_ours dst s.mac)
        then s
        else handle_ipv4 len mem s)
    else s

-- `net_init`; the card gives its address, or fails to start.
pub init : Option (List ℕ) → Net → Net
init none s = clear_all s
init (some mac) s = send_dhcp dhcp_discover 0 0 (record (clear_all s) { mac = mac })

-- `rtl8139_poll` hands over the frames that have come in.
pub receive : List (ℕ × Arr) → Net → Net
receive [] s = s
receive ((len, mem) ∷ frames) s = receive frames (handle_packet len mem s)

-- `net_poll`
pub poll : List (ℕ × Arr) → Net → Net
poll frames s = poll_retransmit (receive frames s)

-- `net_poll_wait`: what comes in at each round.
pub poll_wait : List (List (ℕ × Arr)) → Net → Net
poll_wait [] s = s
poll_wait (frames ∷ rounds) s = poll_wait rounds (poll frames s)

-- `net_http_fetch`: 0, or -1 as a 32-bit pattern.
pub http_fetch : List ℕ → Net → ℕ × Net
http_fetch host s =
    if not s.dhcp_configured || not s.gateway_known
    then (2 ^ 32 - 1, s)
    else (0, dns_query host (record (http_reset s) { http_host = host_name host }))
