-- ===== src/Net/Dhcp/Lease.antt =====
-- net/net.c: how an offer and its acknowledgement configure the stack.
use epona_os.Base.{
  ℕ, ◌+◌, ◌-◌, ◌<◌, ◌≡◌, refl, sym, ◌∙◌, ◌≢◌, ◌⊎◌, true, false, ◌&&◌, ◌||◌, not, List, [], ◌∷◌,
  ◌++◌, arith, Arr, subst, length, ltb, ◌==◌, if◌then◌else◌, Spells,
}
use epona_os.Net.State.{Net, transmit}
use epona_os.Net.Dhcp.{
  Options, no_options, handle_dhcp, dhcp_message, send_dhcp, send_udp, send_arp_request, dhcp_xid,
  dhcp_magic, dhcp_offer, dhcp_ack, be_word, le_word, net_ip,
}
use epona_os.Net.Dhcp.Request.{Requests, send_dhcp-Requests}
use epona_os.Net.Dhcp.Parse.{encode, AllOptions, store_all, parse_options-encode}

-- A reply to this client of `len` bytes at `at`, with these options and the end mark behind them.
pub record IsReply (at len : ℕ) (mem : Arr) (os : List (ℕ × List ℕ)) : Type 0 where
  pub op : mem at ≡ 2
  pub xid : be_word mem (at + 4) ≡ dhcp_xid
  pub magic : be_word mem (at + 236) ≡ dhcp_magic
  pub codes_ok : AllOptions os
  pub written : Spells mem (at + 240 + 0) (encode os ++ (255 ∷ []))
  pub room : 240 + length (encode os) < len

handle_dhcp-reply :
    (at len : ℕ) (mem : Arr) (os : List (ℕ × List ℕ)) (s : Net)
    → IsReply at len mem os
    → handle_dhcp at len mem s ≡ dhcp_message (le_word mem (at + 16)) (store_all os no_options) s
unfolding handle_dhcp
handle_dhcp-reply at len mem os s r =
    let e0 : ltb len 240 ≡ false = ground (arith, r.room) in
    let e1 : (not (mem at == 2)
          || not (be_word mem (at + 4) == dhcp_xid)
          || not (be_word mem (at + 236) == dhcp_magic))
        ≡ false =
      ground (arith, r.op, r.xid, r.magic) in
    let p =
      parse_options-encode os (len - 240 + 1) 0 (len - 240) (at + 240) mem no_options r.codes_ok
        r.written (omega (arith, r.room)) (omega arith) in
    rw (e0, e1, p) refl

-- The state after an offer of the address `yiaddr`.
pub record Offered (yiaddr : ℕ) (o : Options) (s t : Net) : Type 0 where
  pub offered : t.offered_ip ≡ yiaddr
  pub server : t.dhcp_server_ip ≡ o.server_ip
  pub requested : t.dhcp_requested ≡ true
  pub configured_same : t.dhcp_configured ≡ s.dhcp_configured
  pub frame : List ℕ
  pub asked : t.sent ≡ frame ∷ s.sent
  pub requests : Requests yiaddr o.server_ip frame

-- The state after the acknowledgement.
pub record Leased (yiaddr : ℕ) (o : Options) (t : Net) : Type 0 where
  pub address : t.local_ip ≡ yiaddr
  pub gateway : t.gateway_ip ≡ (if o.router_ip == 0 then net_ip 10 0 2 2 else o.router_ip)
  pub dns : t.dns_ip ≡ o.dns_ip
  pub configured : t.dhcp_configured ≡ true

-- A reply that offers an address, when none has been requested, makes the kernel request it of that server.
pub offer_lem :
    (at len : ℕ) (mem : Arr) (os : List (ℕ × List ℕ)) (s : Net)
    → IsReply at len mem os
    → (store_all os no_options).msg_type ≡ dhcp_offer
    → s.dhcp_requested ≡ false
    → Offered (le_word mem (at + 16)) (store_all os no_options) s (handle_dhcp at len mem s)
unfolding dhcp_message send_dhcp send_udp transmit
offer_lem at len mem os s r m n =
    let ip : ℕ = le_word mem (at + 16) in
    let o : Options = store_all os no_options in
    let e : (o.msg_type == dhcp_offer && not s.dhcp_requested) ≡ true = ground (arith, m, n) in
    let (frame, asked, requests) =
      send_dhcp-Requests ip o.server_ip
        (record s { offered_ip = ip; dhcp_server_ip = o.server_ip; dhcp_requested = true }) in
    subst (Offered ip o s) (sym (handle_dhcp-reply at len mem os s r)) (
      rw e (record {
        offered = refl;
        server = refl;
        requested = refl;
        configured_same = refl;
        frame = frame;
        asked = asked;
        requests = requests;
      }))

-- A reply that acknowledges, when there is no address yet, sets the address, the gateway and the name server.
pub acknowledge_lem :
    (at len : ℕ) (mem : Arr) (os : List (ℕ × List ℕ)) (s : Net)
    → IsReply at len mem os
    → (store_all os no_options).msg_type ≡ dhcp_ack
    → s.dhcp_configured ≡ false
    → Leased (le_word mem (at + 16)) (store_all os no_options) (handle_dhcp at len mem s)
unfolding dhcp_message send_arp_request transmit
acknowledge_lem at len mem os s r m n =
    let ip : ℕ = le_word mem (at + 16) in
    let o : Options = store_all os no_options in
    let e : (o.msg_type == dhcp_offer && not s.dhcp_requested) ≡ false = ground (arith, m) in
    let e' : (o.msg_type == dhcp_ack && not s.dhcp_configured) ≡ true = ground (arith, m, n) in
    subst (Leased ip o) (sym (handle_dhcp-reply at len mem os s r))
      (rw (e, e') (record { address = refl; gateway = refl; dns = refl; configured = refl }))

-- From a state without a request, the server's offer and then its acknowledgement lead to a lease: the next
-- frame asks, in its options, for the offered address from the server that the offer's
-- options name, each left out where it is 0, and the address, the gateway, which is 10.0.2.2
-- if none is named, and the name server are those of the acknowledgement, from the last options of their kinds.
pub lease_lem :
    (at at' len len' : ℕ) (mem mem' : Arr) (os os' : List (ℕ × List ℕ)) (s : Net)
    → IsReply at len mem os
    → IsReply at' len' mem' os'
    → (store_all os no_options).msg_type ≡ dhcp_offer
    → (store_all os' no_options).msg_type ≡ dhcp_ack
    → s.dhcp_requested ≡ false
    → s.dhcp_configured ≡ false
    → Offered (le_word mem (at + 16)) (store_all os no_options) s (handle_dhcp at len mem s)
      × Leased
          (le_word mem' (at' + 16))
          (store_all os' no_options)
          (handle_dhcp at' len' mem' (handle_dhcp at len mem s))
lease_lem at at' len len' mem mem' os os' s r r' m m' n c =
    let first = offer_lem at len mem os s r m n in
    (
      first,
      acknowledge_lem at' len' mem' os' (handle_dhcp at len mem s) r' m'
          (first.configured_same ∙ c),
    )

-- A reply that neither offers an address while none has been requested nor acknowledges one while there is
-- none changes nothing.
pub ignored_lem :
    (at len : ℕ) (mem : Arr) (os : List (ℕ × List ℕ)) (s : Net)
    → IsReply at len mem os
    → ((store_all os no_options).msg_type ≢ dhcp_offer) ⊎ (s.dhcp_requested ≡ true)
    → ((store_all os no_options).msg_type ≢ dhcp_ack) ⊎ (s.dhcp_configured ≡ true)
    → handle_dhcp at len mem s ≡ s
unfolding dhcp_message
ignored_lem at len mem os s r h k =
    let o : Options = store_all os no_options in
    let e : (o.msg_type == dhcp_offer && not s.dhcp_requested) ≡ false = ground (arith, h) in
    let e' : (o.msg_type == dhcp_ack && not s.dhcp_configured) ≡ false = ground (arith, k) in
    handle_dhcp-reply at len mem os s r ∙ rw (e, e') refl
