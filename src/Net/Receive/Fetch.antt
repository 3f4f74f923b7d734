-- ===== src/Net/Receive/Fetch.antt =====
-- net/net.c: fetching a page, from the query for the address to the request on the open connection.
use epona_os.Base.{
  ℕ, ◌+◌, ◌%◌, ◌^◌, ◌≤◌, ◌≡◌, refl, sym, ap, ◌∙◌, ◌≢◌, true, false, ◌||◌, not, some, List, [], ◌∷◌,
  ◌++◌, arith, Arr, subst, length, ◌==◌, bytes_at, Spells,
}
use epona_os.Net.Wire.{eth_header, eth_p_ip, build_ipv4, proto_udp, udp_segment}
use epona_os.Net.State.{Net, http_reset, transmit, host_name, host_name-host_name, tcp_first_seq}
use epona_os.Net.Tcp.{has_flag, flag_rst, flag_syn, flag_ack, segment, start}
use epona_os.Net.Tcp.Handshake.{Connected, connect_lem}
use epona_os.Net.Dhcp.{le_word, send_udp}
use epona_os.Net.Dns.{
  dns_query, query_with, write_name, dns_header, dns_client_port, dns_port, handle_dns,
}
use epona_os.Net.Dns.Name.{AllLabels, dotted, wire_name, write_name-Written}
use epona_os.Net.Dns.Answer.{IsAnswer, answer_at, handle_dns-answer}
use epona_os.Net.Receive.{http_fetch}

Spells-bytes_at : (xs : List ℕ) (i : ℕ) (a : Arr) → Spells a i xs → bytes_at a i (length xs) ≡ xs
Spells-bytes_at [] i a _ = refl
Spells-bytes_at (x ∷ xs) i a (e, s) = cc (e, Spells-bytes_at xs (i + 1) a s)

-- The frame that asks for the address of the name.
abbrev pub query : Net → List (List ℕ) → List ℕ
query s ls =
    let payload = dns_header ++ (wire_name ls ++ (0 ∷ 1 ∷ 0 ∷ 1 ∷ [])) in
    eth_header s.gateway_mac s.mac eth_p_ip
    ++ (build_ipv4 s.ip_id s.local_ip s.dns_ip proto_udp (8 + length payload)
        ++ udp_segment dns_client_port dns_port payload)

-- The state that waits for the answer.
abbrev pub asked : Net → List (List ℕ) → Net
asked s ls = record (http_reset s) {
  http_host = host_name (dotted ls);
  dns_host = host_name (dotted ls);
  dns_requested = true;
  ip_id = (s.ip_id + 1) % 2 ^ 16;
  sent = query s ls ∷ s.sent;
}

query_with-bytes :
    (host bytes : List ℕ) (n : ℕ) (out : Arr) (s : Net)
    → bytes_at out 0 n ≡ bytes
    → query_with host (some n, out) s
      ≡ send_udp s.gateway_mac s.local_ip s.dns_ip dns_client_port dns_port
          (dns_header ++ (bytes ++ (0 ∷ 1 ∷ 0 ∷ 1 ∷ [])))
          (record s { dns_requested = true; dns_host = host_name host })
unfolding query_with
query_with-bytes host bytes n out s e = rw e refl

-- `net_http_fetch` puts one frame on the wire, the query, and waits for the answer.
http_fetch-asked :
    (l : List ℕ) (ls : List (List ℕ)) (s : Net)
    → s.dhcp_configured ≡ true
    → s.gateway_known ≡ true
    → s.dns_ip ≢ 0
    → AllLabels (l ∷ ls)
    → length (wire_name (l ∷ ls)) ≤ 240
    → http_fetch (dotted (l ∷ ls)) s ≡ (0, asked s (l ∷ ls))
unfolding http_fetch dns_query query_with send_udp transmit http_reset
http_fetch-asked l ls s ready known server all room =
    let w = write_name-Written l ls 0 0 240 (λ _. 0) all (omega (arith, room)) in
    let n : 0 + length (wire_name (l ∷ ls)) ≡ length (wire_name (l ∷ ls)) = omega arith in
    let spelled =
      ap (bytes_at w.out' 0) n ∙ Spells-bytes_at (wire_name (l ∷ ls)) 0 w.out' w.spelled in
    let configured : (not s.dhcp_configured || not s.gateway_known) ≡ false =
      ground (arith, ready, known) in
    let free : (s.dns_ip == 0) ≡ false = ground (arith, server) in
    let host : List ℕ = dotted (l ∷ ls) in
    let with_host : Net = record (http_reset s) { http_host = host_name host } in
    let step : http_fetch host s
        ≡ (0, query_with host (write_name host 0 0 0 240 (λ _. 0)) with_host) =
      rw (configured, free) refl in
    let sends =
      query_with-bytes host (wire_name (l ∷ ls)) (0 + length (wire_name (l ∷ ls))) w.out' with_host
        spelled in
    step ∙ ap (λ t. (0, t)) (ap (λ r. query_with host r with_host) w.result ∙ sends)

-- With an address, the gateway known and a name server, a fetch of a host name whose labels have 1 to 63
-- characters and which fits into the buffer of the query returns 0; when an answer with an address and then
-- a SYN-ACK without RST that acknowledges the SYN come in, the connection is open and the query, the SYN,
-- the acknowledgement and the request for that host have been sent, in this order.
pub fetch_lem :
    (l : List ℕ) (ls ls' : List (List ℕ)) (s : Net) (msg len : ℕ) (mem : Arr) (flags seq : ℕ)
    (payload : List ℕ)
    → s.dhcp_configured ≡ true
    → s.gateway_known ≡ true
    → s.dns_ip ≢ 0
    → AllLabels (l ∷ ls)
    → length (wire_name (l ∷ ls)) ≤ 240
    → IsAnswer msg len mem ls'
    → has_flag flag_rst flags ≡ false
    → has_flag flag_syn flags ≡ true
    → has_flag flag_ack flags ≡ true
    → ((http_fetch (dotted (l ∷ ls)) s).0 ≡ 0)
      × Connected (le_word mem (msg + (answer_at ls' + 2) + 10)) seq (asked s (l ∷ ls)) (
          segment flags seq
            (tcp_first_seq + 1)
            payload
            (handle_dns msg len mem (http_fetch (dotted (l ∷ ls)) s).1))
unfolding http_reset
fetch_lem l ls ls' s msg len mem flags seq payload ready known server all room h r y a =
    let e = http_fetch-asked l ls s ready known server all room in
    let ip : ℕ = le_word mem (msg + (answer_at ls' + 2) + 10) in
    let q : Net = asked s (l ∷ ls) in
    let u : Net = record q { dns_answer_ip = ip; http_host = host_name q.dns_host } in
    let same : u ≡ record q { dns_answer_ip = ip } =
      ap (λ (name : List ℕ). record q { dns_answer_ip = ip; http_host = name })
        (host_name-host_name (dotted (l ∷ ls))) in
    let answer : handle_dns msg len mem q ≡ start ip u = handle_dns-answer msg len mem ls' q h in
    let c = connect_lem ip flags seq payload (record q { dns_answer_ip = ip }) known refl r y a in
    (
      ap (λ (x : ℕ × Net). x.0) e,
      subst
          (λ (x : ℕ × Net).
            Connected ip seq q
              (segment flags seq (tcp_first_seq + 1) payload (handle_dns msg len mem x.1)))
          (sym e)
          (subst (λ (t : Net). Connected ip seq q (segment flags seq (tcp_first_seq + 1) payload t))
            (sym (answer ∙ ap (start ip) same))
            (record {
              state = c.state;
              next_seq = c.next_seq;
              next_ack = c.next_ack;
              frames = c.frames;
            })),
    )
