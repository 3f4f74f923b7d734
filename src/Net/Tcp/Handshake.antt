-- ===== src/Net/Tcp/Handshake.antt =====
-- net/net.c: opening and closing the connection.
use epona_os.Base.{
  ℕ, zero, suc, ◌+◌, ◌%◌, ◌^◌, ◌≡◌, refl, sym, ap, true, false, ◌&&◌, ◌||◌, not, List, [], ◌∷◌,
  ◌++◌, arith, subst, length, length-append, ltb, leb, ◌==◌, if◌then◌else◌, codes,
}
use Prim.Native.Nat.{min}
use epona_os.Ring.{take}
use epona_os.Net.Wire.{eth_header, eth_p_ip, build_ipv4, proto_tcp, tcp_segment}
use epona_os.Net.State.{Net, transmit, tcp_first_seq}
use epona_os.Net.Tcp.{
  has_flag, flag_fin, flag_syn, flag_rst, flag_psh, flag_ack, send_tcp_segment, send, start,
  get_request, send_get, print_body_preview, finish, establish, segment,
}

-- The frame of a segment to the server.
abbrev pub frame : (s : Net) (remote id seq ack flags : ℕ) → List ℕ → List ℕ
frame s remote id seq ack flags payload =
    eth_header s.gateway_mac s.mac eth_p_ip
    ++ (build_ipv4 id s.local_ip remote proto_tcp (20 + length payload)
        ++ tcp_segment s.local_ip remote seq ack flags payload)

length-take : (n : ℕ) (xs : List ℕ) → length (take n xs) ≡ min n (length xs)
length-take zero xs = omega arith
length-take (suc n) [] = omega arith
length-take (suc n) (x ∷ xs) = omega (arith, length-take n xs)

length-get_request :
    (host : List ℕ) (stray : ℕ) → length (get_request host stray) ≡ 49 + min 60 (length host)
unfolding get_request
length-get_request host stray = omega (
  arith,
  length-take 60 host,
  length-append (take 60 host) (codes "\r\nUser-Agent: EponaOS\r\n\r\n" ++ (0 ∷ stray ∷ [])),
)

-- A connection to `remote` whose SYN has been answered with the sequence number `seq`.
pub record Connected (remote seq : ℕ) (s t : Net) : Type 0 where
  pub state : t.tcp_state ≡ 3
  pub next_seq : t.tcp_seq ≡ (tcp_first_seq + 50 + min 60 (length s.http_host)) % 2 ^ 32
  pub next_ack : t.tcp_ack ≡ (seq + 1) % 2 ^ 32
  pub frames :
      t.sent
      ≡ frame s remote
          ((((s.ip_id + 1) % 2 ^ 16) + 1) % 2 ^ 16)
          (tcp_first_seq + 1)
          ((seq + 1) % 2 ^ 32)
          (flag_psh + flag_ack)
          (get_request s.http_host s.stray)
        ∷ frame s remote
            ((s.ip_id + 1) % 2 ^ 16)
            (tcp_first_seq + 1)
            ((seq + 1) % 2 ^ 32)
            flag_ack
            []
        ∷ frame s remote s.ip_id tcp_first_seq 0 flag_syn []
        ∷ s.sent

-- With the gateway known and no connection open, `tcp_http_start` and the SYN-ACK that acknowledges its SYN
-- lead to state 3: the SYN, the acknowledgement and the request have been sent, in this order and with the
-- numbers that follow from the SYN-ACK, and the request counts 49 bytes and at most 60 of the host name.
pub connect_lem :
    (remote flags seq : ℕ) (payload : List ℕ) (s : Net)
    → s.gateway_known ≡ true
    → s.tcp_state ≡ 0
    → has_flag flag_rst flags ≡ false
    → has_flag flag_syn flags ≡ true
    → has_flag flag_ack flags ≡ true
    → Connected remote seq s (segment flags seq (tcp_first_seq + 1) payload (start remote s))
unfolding start segment establish send_get send_tcp_segment transmit
connect_lem remote flags seq payload s known closed r y a =
    let st : Net = send tcp_first_seq 0 flag_syn [] (record s {
      tcp_remote_ip = remote;
      tcp_seq = tcp_first_seq;
      tcp_ack = 0;
      tcp_get_seq = 0;
      tcp_get_len = 0;
      tcp_wait_ticks = 0;
      tcp_retries = 0;
      http_bytes = 0;
      http_chunks = 0;
      tcp_state = 1;
    }) in
    let free : (not s.gateway_known || not (s.tcp_state == 0)) ≡ false =
      ground (arith, known, closed) in
    let opened : start remote s ≡ st = ap (λ b. if b then s else st) free in
    subst (λ t. Connected remote seq s (segment flags seq (tcp_first_seq + 1) payload t))
      (sym opened)
      (rw (r, y, a)
        (record {
          state = refl;
          next_seq = omega (arith, length-get_request s.http_host s.stray);
          next_ack = refl;
          frames = refl;
        }))

-- A segment with the FIN flag, without RST, SYN and payload, closes the connection in every state and with
-- every sequence number, also when bytes before it are missing, and acknowledges all up to it.
pub fin_closes :
    (flags seq ack : ℕ) (s : Net)
    → has_flag flag_rst flags ≡ false
    → has_flag flag_syn flags ≡ false
    → has_flag flag_fin flags ≡ true
    → ((segment flags seq ack [] s).tcp_state ≡ 6)
      × ((segment flags seq ack [] s).tcp_ack ≡ (seq + 1) % 2 ^ 32)
unfolding segment finish print_body_preview send_tcp_segment transmit
fin_closes flags seq ack s r y f =
    let e : (s.tcp_state == 1
          && (has_flag flag_syn flags && has_flag flag_ack flags)
          && ack == (s.tcp_seq + 1) % 2 ^ 32)
        ≡ false =
      ground (arith, y) in
    let e' : (leb 3 s.tcp_state && leb s.tcp_state 4 && ltb 0 0) ≡ false = ground arith in
    rw (r, e, e', f) (refl, ground arith)
