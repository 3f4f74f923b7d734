-- ===== src/Net/Dhcp/Request.antt =====
-- net/net.c: the frame of send_dhcp, byte by byte where it says what is requested.
use epona_os.Base.{
  ℕ, ◌+◌, ◌-◌, ◌/◌, ◌%◌, ◌^◌, ◌≡◌, refl, sym, ap, ◌∙◌, inl, inr, List, [], ◌∷◌, ◌++◌, length, ◌==◌,
  if◌then◌else◌, Bool-cases,
}
use mathlib.Core.List.{append_assoc}
use epona_os.Net.State.{Net, transmit}
use epona_os.Net.Wire.{eth_header, build_ipv4, udp_segment, be16, be32, le32, eth_p_ip, proto_udp}
use epona_os.Net.Dhcp.{
  dhcp_request, dhcp_header, dhcp_options, add_option, zeros, broadcast, net_ip, send_udp,
  send_dhcp, dhcp_xid, dhcp_magic,
}

-- The options of a request for an address of a server, byte by byte: 53 is the kind of message, a request; 50 is the
-- address that is asked for, 54 the server, each left out where it is 0; 55 and 57 are the same in all messages.
abbrev pub address_option : (code ip : ℕ) → List ℕ
address_option code ip =
    if ip == 0
    then []
    else code ∷ 4 ∷ ip % 2 ^ 8 ∷ ip / 2 ^ 8 % 2 ^ 8 ∷ ip / 2 ^ 16 % 2 ^ 8 ∷ ip / 2 ^ 24 % 2 ^ 8 ∷ []

abbrev pub request_options : (ip server : ℕ) → List ℕ
request_options ip server =
    53
    ∷ 1
    ∷ 3
    ∷ (address_option 50 ip
        ++ (address_option 54 server
            ++ (55 ∷ 6 ∷ 1 ∷ 3 ∷ 6 ∷ 15 ∷ 51 ∷ 54 ∷ 57 ∷ 2 ∷ 2 ∷ 64 ∷ 255 ∷ [])))

-- The frame has, behind the magic number of its message, these options and then zeros to its end.
abbrev pub Requests : (ip server : ℕ) → List ℕ → Type 0
Requests ip server frame =
    (front : List ℕ) × (n : ℕ) × (frame
      ≡ front ++ (0x63 ∷ 0x82 ∷ 0x53 ∷ 0x63 ∷ (request_options ip server ++ zeros n)))

dhcp_options-request_options :
    (ip server : ℕ) → dhcp_options dhcp_request ip server ≡ request_options ip server
unfolding dhcp_options add_option be16 le32
dhcp_options-request_options ip server = elim (Bool-cases (ip == 0)) [
  | inl a ↦ elim (Bool-cases (server == 0)) [ inl b ↦ rw (a, b) refl | inr b ↦ rw (a, b) refl ]
  | inr a ↦ elim (Bool-cases (server == 0)) [ inl b ↦ rw (a, b) refl | inr b ↦ rw (a, b) refl ]
]

-- The list ends in these bytes.
abbrev EndsIn : List ℕ → List ℕ → Type 0
EndsIn l bytes = (front : List ℕ) × (l ≡ front ++ bytes)

EndsIn-append : (xs l bytes : List ℕ) → EndsIn l bytes → EndsIn (xs ++ l) bytes
EndsIn-append xs l bytes (front, e) =
    (xs ++ front, ap (λ (t : List ℕ). xs ++ t) e ∙ sym (append_assoc xs front bytes))

EndsIn-cons : (x : ℕ) (l bytes : List ℕ) → EndsIn l bytes → EndsIn (x ∷ l) bytes
EndsIn-cons x l bytes (front, e) = (x ∷ front, ap (λ (t : List ℕ). x ∷ t) e)

dhcp_header-EndsIn : (mac : List ℕ) → EndsIn (dhcp_header mac) (be32 dhcp_magic)
unfolding dhcp_header
dhcp_header-EndsIn mac = EndsIn-append (1 ∷ 1 ∷ 6 ∷ 0 ∷ []) _ (be32 dhcp_magic) (
    EndsIn-append (be32 dhcp_xid) _ (be32 dhcp_magic) (
      EndsIn-append (zeros 2) _ (be32 dhcp_magic) (
        EndsIn-append (be16 0x8000) _ (be32 dhcp_magic) (
          EndsIn-append (zeros 16) _ (be32 dhcp_magic) (
            EndsIn-append mac _ (be32 dhcp_magic)
              (EndsIn-append (zeros 10) _ (be32 dhcp_magic) (zeros 192, refl)))))))

-- What `send_dhcp` puts behind the headers of Ethernet, IPv4 and UDP.
abbrev message : (ip server : ℕ) → List ℕ → List ℕ
message ip server mac =
    let filled = dhcp_header mac ++ dhcp_options dhcp_request ip server in
    filled ++ zeros (300 - length filled)

message-EndsIn :
    (ip server : ℕ) (mac : List ℕ)
    → (n : ℕ) × EndsIn
        (message ip server mac)
        (be32 dhcp_magic ++ (request_options ip server ++ zeros n))
message-EndsIn ip server mac =
    let header : List ℕ = dhcp_header mac in
    let options : List ℕ = dhcp_options dhcp_request ip server in
    let n : ℕ = 300 - length (header ++ options) in
    let (front, e) = dhcp_header-EndsIn mac in
    (
      n,
      (
        front,
        append_assoc header options (zeros n)
            ∙ ap (λ (o : List ℕ). header ++ (o ++ zeros n)) (dhcp_options-request_options ip server)
            ∙ ap (λ (h : List ℕ). h ++ (request_options ip server ++ zeros n)) e
            ∙ append_assoc front (be32 dhcp_magic) (request_options ip server ++ zeros n),
      ),
    )

-- The frame that is sent.
pub send_dhcp-Requests :
    (ip server : ℕ) (s : Net)
    → (frame : List ℕ) × ((send_dhcp dhcp_request ip server s).sent ≡ frame ∷ s.sent)
      × Requests ip server frame
unfolding send_dhcp send_udp transmit udp_segment be16 be32
send_dhcp-Requests ip server s =
    let bytes : List ℕ = message ip server s.mac in
    let (n, end) = message-EndsIn ip server s.mac in
    let (front, e) = EndsIn-append (eth_header broadcast s.mac eth_p_ip) _ _ (
      EndsIn-append (build_ipv4 s.ip_id 0 (net_ip 255 255 255 255) proto_udp (8 + length bytes)) _ _
        (EndsIn-append (be16 68) _ _ (
          EndsIn-append (be16 67) _ _
            (EndsIn-append (be16 (8 + length bytes)) _ _ (EndsIn-append (be16 0) bytes _ end))))) in
    (_, refl, (front, n, e))
