-- ===== src/Net/Dhcp.antt =====
-- net/net.c: DHCP. A received message stands in memory from some address on.
use epona_os.Base.{
  ℕ, zero, suc, ◌+◌, ◌-◌, ◌*◌, ◌/◌, ◌%◌, ◌^◌, ◌≤◌, ◌<◌, bit_and, bit_or, bit_xor, ◌≡◌, refl, sym,
  ap, ◌∙◌, ◌≢◌, ◌↔◌, ◌⊎◌, inl, inr, Bool, true, false, ◌&&◌, ◌||◌, not, Option, none, some, List,
  [], ◌∷◌, ◌++◌, arith, Arr, upd, upd_self, upd_ne, subst, length, length-append, ltb, leb, ◌==◌,
  ==_iff, if◌then◌else◌, Bool-cases, if_elim, extend_down, Option-cases, ltb→lt, &&_split,
  all_below, all_below_sound, bytes_at, length-bytes_at, bytes_at_ext, bytes_at-add, codes,
  write_bytes, write_bytes-out, bytes_at-write_bytes,
}
use epona_os.Net.Wire.{
  be16, be32, le32, eth_header, eth_p_ip, eth_p_arp, build_ipv4, proto_udp, udp_segment,
}
use epona_os.Net.State.{Net, transmit}
pub mod Parse
pub mod Lease
pub mod Request

abbrev pub dhcp_xid : ℕ
dhcp_xid = 0xe900c0de

abbrev pub dhcp_magic : ℕ
dhcp_magic = 0x63825363

abbrev pub dhcp_discover : ℕ
dhcp_discover = 1

abbrev pub dhcp_offer : ℕ
dhcp_offer = 2

abbrev pub dhcp_request : ℕ
dhcp_request = 3

abbrev pub dhcp_ack : ℕ
dhcp_ack = 5

-- A word as `memcpy` reads it, and a word in network order.
abbrev pub le_word : Arr → ℕ → ℕ
le_word mem i = mem i + mem (i + 1) * 2 ^ 8 + mem (i + 2) * 2 ^ 16 + mem (i + 3) * 2 ^ 24

abbrev pub be_word : Arr → ℕ → ℕ
be_word mem i = mem i * 2 ^ 24 + mem (i + 1) * 2 ^ 16 + mem (i + 2) * 2 ^ 8 + mem (i + 3)

abbrev pub be_half : Arr → ℕ → ℕ
be_half mem i = mem i * 2 ^ 8 + mem (i + 1)

-- NET_IP
abbrev pub net_ip : (a b c d : ℕ) → ℕ
net_ip a b c d = a + b * 2 ^ 8 + c * 2 ^ 16 + d * 2 ^ 24

unfoldable pub send_udp :
    (dst_mac : List ℕ) (src_ip dst_ip src_port dst_port : ℕ) → List ℕ → Net → Net
send_udp dst_mac src_ip dst_ip src_port dst_port payload s =
    let frame =
      eth_header dst_mac s.mac eth_p_ip
      ++ (build_ipv4 s.ip_id src_ip dst_ip proto_udp (8 + length payload)
          ++ udp_segment src_port dst_port payload) in
    transmit frame (record s { ip_id = (s.ip_id + 1) % 2 ^ 16 })

-- `dhcp_add_option`: what it appends.
unfoldable pub add_option : ℕ → List ℕ → List ℕ
add_option code bytes = code ∷ length bytes ∷ bytes

pub zeros : ℕ → List ℕ
zeros zero = []
zeros (suc n) = 0 ∷ zeros n

-- `dhcp_pkt_t` as `send_dhcp` fills it.
pub dhcp_header : List ℕ → List ℕ
dhcp_header mac =
    1
    ∷ 1
    ∷ 6
    ∷ 0
    ∷ (be32 dhcp_xid
        ++ (zeros 2
            ++ (be16 0x8000
                ++ (zeros 16 ++ (mac ++ (zeros 10 ++ (zeros 192 ++ be32 dhcp_magic)))))))

pub dhcp_options : (msg_type requested_ip server_ip : ℕ) → List ℕ
dhcp_options msg_type requested_ip server_ip =
    add_option 53 (msg_type % 2 ^ 8 ∷ [])
    ++ ((if requested_ip == 0 then [] else add_option 50 (le32 requested_ip))
        ++ ((if server_ip == 0 then [] else add_option 54 (le32 server_ip))
            ++ (add_option 55 (1 ∷ 3 ∷ 6 ∷ 15 ∷ 51 ∷ 54 ∷ [])
                ++ (add_option 57 (be16 576) ++ (255 ∷ [])))))

abbrev pub broadcast : List ℕ
broadcast = 0xff ∷ 0xff ∷ 0xff ∷ 0xff ∷ 0xff ∷ 0xff ∷ []

-- At least 300 bytes; the buffer was zero.
pub send_dhcp : (msg_type requested_ip server_ip : ℕ) → Net → Net
send_dhcp msg_type requested_ip server_ip s =
    let filled = dhcp_header s.mac ++ dhcp_options msg_type requested_ip server_ip in
    send_udp broadcast 0 (net_ip 255 255 255 255) 68 67 (filled ++ zeros (300 - length filled)) s

pub send_arp_request : ℕ → Net → Net
send_arp_request target_ip s =
    let arp =
      be16 1
      ++ (be16 eth_p_ip
          ++ (6 ∷ 4 ∷ (be16 1 ++ (s.mac ++ (le32 s.local_ip ++ (zeros 6 ++ le32 target_ip)))))) in
    transmit (eth_header broadcast s.mac eth_p_arp ++ arp) s

-- What `parse_dhcp_options` stores through its pointers.
pub record Options : Type 0 where
  pub msg_type : ℕ
  pub server_ip : ℕ
  pub router_ip : ℕ
  pub dns_ip : ℕ

-- An option whose value has `olen` bytes and stands at `at`.
pub take_option : (code olen at : ℕ) → Arr → Options → Options
take_option code olen at mem o =
    if code == 53 && leb 1 olen
    then record o { msg_type = mem at }
    else if code == 54 && leb 4 olen
    then record o { server_ip = le_word mem at }
    else if code == 3 && leb 4 olen
    then record o { router_ip = le_word mem at }
    else if code == 6 && leb 4 olen
    then record o { dns_ip = le_word mem at }
    else o

-- One round of the loop of `parse_dhcp_options`, for the options from `opt` on: the next index and what
-- is stored, or the end.
pub option_step : (i len opt : ℕ) → Arr → Options → Option (ℕ × Options)
option_step i len opt mem o =
    let code = mem (opt + i) in
    let olen = mem (opt + (i + 1)) in
    if leb len i
    then none
    else if code == 255
    then none
    else if code == 0
    then some (i + 1, o)
    else if leb len (i + 1)
    then none
    else if ltb len (i + 2 + olen)
    then none
    else some (i + 2 + olen, take_option code olen (opt + (i + 2)) mem o)

-- `none` when the fuel is used up.
pub parse_options : (fuel i len opt : ℕ) → Arr → Options → Option Options
parse_options zero i len opt mem o = none
parse_options (suc fuel) i len opt mem o = elim (option_step i len opt mem o) [
  | none ↦ some o
  | some (i', o') ↦ parse_options fuel i' len opt mem o'
]

abbrev pub no_options : Options
no_options = record { msg_type = 0; server_ip = 0; router_ip = 0; dns_ip = 0 }

-- `handle_dhcp` behind the parsing; `yiaddr` is the address that the server gives.
pub dhcp_message : (yiaddr : ℕ) → Options → Net → Net
dhcp_message yiaddr o s =
    if o.msg_type == dhcp_offer && not s.dhcp_requested
    then send_dhcp dhcp_request yiaddr o.server_ip
        (record s { offered_ip = yiaddr; dhcp_server_ip = o.server_ip; dhcp_requested = true })
    else if o.msg_type == dhcp_ack && not s.dhcp_configured
    then (let gateway = if o.router_ip == 0 then net_ip 10 0 2 2 else o.router_ip in
        send_arp_request gateway (record s {
          local_ip = yiaddr;
          gateway_ip = gateway;
          dns_ip = o.dns_ip;
          dhcp_configured = true;
        }))
    else s

abbrev pub or_same : Option Options → (Options → Net → Net) → Net → Net
or_same none f s = s
or_same (some o) f s = f o s

-- `handle_dhcp`: the message stands at `at` and has `len` bytes, 240 of them before the options. There is
-- fuel for a round for each byte.
pub handle_dhcp : (at len : ℕ) → Arr → Net → Net
handle_dhcp at len mem s =
    if ltb len 240
    then s
    else if not (mem at == 2)
        || not (be_word mem (at + 4) == dhcp_xid)
        || not (be_word mem (at + 236) == dhcp_magic)
    then s
    else or_same (parse_options (len - 240 + 1) 0 (len - 240) (at + 240) mem no_options)
        (dhcp_message (le_word mem (at + 16))) s
