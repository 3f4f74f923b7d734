-- ===== src/Net/Receive/Guards.antt =====
-- net/net.c: which frames are looked at.
use epona_os.Base.{
  ℕ, ◌+◌, ◌*◌, ◌%◌, ◌≤◌, ◌≡◌, refl, ◌≢◌, ◌⊎◌, true, false, ◌||◌, not, arith, Arr, ltb, ◌==◌,
}
use epona_os.Net.Wire.{proto_tcp, eth_p_ip}
use epona_os.Net.State.{Net}
use epona_os.Net.Dhcp.{be_half, le_word}
use epona_os.Net.Receive.{eth_len, handle_tcp, handle_ipv4, handle_arp, handle_packet}

short-long : (k len : ℕ) → k ≤ len → ltb len k ≡ false
short-long k len h = ground arith

-- Two lengths of at least 74 bytes that are given for the same bytes make no difference to what is done with them.
pub handle_packet-len :
    (len len' : ℕ) (mem : Arr) (s : Net)
    → 74 ≤ len
    → 74 ≤ len'
    → handle_packet len mem s ≡ handle_packet len' mem s
unfolding handle_packet handle_ipv4 handle_arp
handle_packet-len len len' mem s h h' =
    let most : eth_len + mem eth_len % 16 * 4 ≤ 74 = omega arith in
    rw
      (
        short-long eth_len len (omega arith),
        short-long eth_len len' (omega arith),
        short-long (eth_len + 28) len (omega arith),
        short-long (eth_len + 28) len' (omega arith),
        short-long (eth_len + 20) len (omega arith),
        short-long (eth_len + 20) len' (omega arith),
        short-long (eth_len + mem eth_len % 16 * 4) len (omega arith),
        short-long (eth_len + mem eth_len % 16 * 4) len' (omega arith),
      )
      refl

foreign-shut :
    (ihl ip_total : ℕ) (mem : Arr) (s : Net)
    → (le_word mem (eth_len + 12) ≢ s.tcp_remote_ip) ⊎ (le_word mem (eth_len + 16) ≢ s.local_ip)
    → handle_tcp ihl ip_total mem s ≡ s
unfolding handle_tcp
foreign-shut ihl ip_total mem s h =
    let e : (not (le_word mem (eth_len + 16) == s.local_ip)
          || not (le_word mem (eth_len + 12) == s.tcp_remote_ip))
        ≡ true =
      ground (arith, h) in
    rw e refl

-- No TCP segment from another address than the server's, or to another address than ours, has any effect.
pub foreign_tcp :
    (len : ℕ) (mem : Arr) (s : Net)
    → mem (eth_len + 9) ≡ proto_tcp
    → be_half mem 12 ≡ eth_p_ip
    → (le_word mem (eth_len + 12) ≢ s.tcp_remote_ip) ⊎ (le_word mem (eth_len + 16) ≢ s.local_ip)
    → handle_packet len mem s ≡ s
unfolding handle_packet handle_ipv4
foreign_tcp len mem s t k h =
    let shut = foreign-shut (mem eth_len % 16 * 4) (be_half mem (eth_len + 2)) mem s h in
    ground (arith, t, k, shut)
