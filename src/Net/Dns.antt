-- ===== src/Net/Dns.antt =====
-- net/net.c: DNS. A received message stands in memory from some address on.
use epona_os.Base.{
  ℕ, zero, suc, ◌+◌, ◌-◌, ◌*◌, ◌/◌, ◌%◌, ◌^◌, ◌≤◌, ◌<◌, bit_and, bit_or, bit_xor, ◌≡◌, refl, sym,
  ap, ◌∙◌, ◌≢◌, ◌↔◌, ◌⊎◌, inl, inr, Bool, true, false, ◌&&◌, ◌||◌, not, Option, none, some, List,
  [], ◌∷◌, ◌++◌, arith, Arr, upd, upd_self, upd_ne, subst, length, length-append, ltb, leb, ◌==◌,
  ==_iff, if◌then◌else◌, Bool-cases, if_elim, extend_down, Option-cases, ltb→lt, &&_split,
  all_below, all_below_sound, bytes_at, length-bytes_at, bytes_at_ext, bytes_at-add, codes,
  write_bytes, write_bytes-out, bytes_at-write_bytes,
}
use epona_os.Net.Wire.{be16}
use epona_os.Net.State.{Net, host_name}
use epona_os.Net.Tcp.{start}
use epona_os.Net.Dhcp.{send_udp, be_half, le_word}
pub mod Write
pub mod Name
pub mod Labels
pub mod Answer

abbrev pub dns_port : ℕ
dns_port = 53

abbrev pub dns_client_port : ℕ
dns_client_port = 49153

abbrev pub dns_xid : ℕ
dns_xid = 0xe901

-- `dns_write_name` from position `pos` on, with the length of the current label and the place for it. The
-- result is the number of bytes, or none for -1, and the buffer as it then is.
pub write_name : List ℕ → (pos label_len label_pos out_len : ℕ) → Arr → Option ℕ × Arr
write_name [] pos label_len label_pos out_len out =
    if label_len == 0
    then (none, out)
    else if leb out_len pos
    then (none, upd out label_pos label_len)
    else (some (pos + 1), upd (upd out label_pos label_len) pos 0)
write_name (c ∷ host) pos label_len label_pos out_len out =
    let fresh = label_len == 0 in
    let place = if fresh then pos else label_pos in
    let pos' = if fresh then pos + 1 else pos in
    let closed = write_name host pos' 0 place out_len (upd out place label_len) in
    let longer = write_name host (pos' + 1) (label_len + 1) place out_len (upd out pos' c) in
    if fresh && leb out_len pos
    then (none, out)
    else if c == b'.'
    then (if fresh || ltb 63 label_len then (none, out) else closed)
    else if leb out_len pos'
    then (none, out)
    else if ltb 63 (label_len + 1)
    then (none, upd out pos' c)
    else longer

-- One round of `dns_skip_name`: failure, the offset behind the name, or the offset of the next label.
pub data Skip : Type 0 where
  fails : Skip
  ends : ℕ → Skip
  goes_on : ℕ → Skip

-- `c & 0xC0` is the two highest bits.
pub skip_label : (msg len off : ℕ) → Arr → Skip
skip_label msg len off mem =
    let c = mem (msg + off) in
    if leb len off
    then fails
    else if c == 0
    then ends (off + 1)
    else if c / 64 % 4 == 3
    then (if leb len (off + 1) then fails else ends (off + 2))
    else if not (c / 64 % 4 == 0)
    then fails
    else if ltb len (off + 1 + c)
    then fails
    else goes_on (off + 1 + c)

-- `dns_skip_name` when `rounds` more labels may be passed.
pub skip_name_in : (rounds msg len off : ℕ) → Arr → Option ℕ
skip_name_in zero msg len off mem = elim (skip_label msg len off mem) [
  | fails ↦ none
  | ends off' ↦ some off'
  | goes_on off' ↦ none
]
skip_name_in (suc rounds) msg len off mem = elim (skip_label msg len off mem) [
  | fails ↦ none
  | ends off' ↦ some off'
  | goes_on off' ↦ skip_name_in rounds msg len off' mem
]

pub skip_name : (msg len off : ℕ) → Arr → Option ℕ
skip_name msg len off mem = skip_name_in 64 msg len off mem

-- `dns_query`
pub dns_header : List ℕ
dns_header = be16 dns_xid ++ (be16 0x0100 ++ (be16 1 ++ (be16 0 ++ (be16 0 ++ be16 0))))

unfoldable pub query_with : (host : List ℕ) → Option ℕ × Arr → Net → Net
query_with host (none, out) s = s
query_with host (some name_len, out) s =
    let payload = dns_header ++ (bytes_at out 0 name_len ++ (0 ∷ 1 ∷ 0 ∷ 1 ∷ [])) in
    send_udp s.gateway_mac s.local_ip s.dns_ip dns_client_port dns_port payload
      (record s { dns_requested = true; dns_host = host_name host })

unfoldable pub dns_query : List ℕ → Net → Net
dns_query host s =
    if not s.dhcp_configured || not s.gateway_known || s.dns_ip == 0
    then s
    else query_with host (write_name host 0 0 0 240 (λ _. 0)) s

-- The loop over the questions of `handle_dns`: the offset behind them.
pub skip_questions : (n msg len off : ℕ) → Arr → Option ℕ
skip_questions zero msg len off mem = some off
skip_questions (suc n) msg len off mem = elim (skip_name msg len off mem) [
  | none ↦ none
  | some off' ↦
      let rest = skip_questions n msg len (off' + 4) mem in
      if ltb len (off' + 4) then none else rest
]

-- The loop over the answers: the address of the first A record.
pub find_address : (n msg len off : ℕ) → Arr → Option ℕ
find_address zero msg len off mem = none
find_address (suc n) msg len off mem = elim (skip_name msg len off mem) [
  | none ↦ none
  | some at ↦
      let kind = be_half mem (msg + at) in
      let klass = be_half mem (msg + at + 2) in
      let rdlen = be_half mem (msg + at + 8) in
      let rest = find_address n msg len (at + 10 + rdlen) mem in
      if ltb len (at + 10)
      then none
      else if ltb len (at + 10 + rdlen)
      then none
      else if kind == 1 && klass == 1 && rdlen == 4
      then some (le_word mem (msg + at + 10))
      else rest
]

abbrev pub after_questions : (n msg len : ℕ) → Option ℕ → Arr → Option ℕ
after_questions n msg len none mem = none
after_questions n msg len (some off) mem = find_address n msg len off mem

pub answered : Option ℕ → Net → Net
answered none s = s
answered (some ip) s = start ip (record s { dns_answer_ip = ip; http_host = host_name s.dns_host })

-- `handle_dns`: the message stands at `msg` and has `len` bytes.
pub handle_dns : (msg len : ℕ) → Arr → Net → Net
handle_dns msg len mem s =
    if ltb len 12
    then s
    else if not (be_half mem msg == dns_xid)
    then s
    else answered
        (after_questions (be_half mem (msg + 6)) msg len
          (skip_questions (be_half mem (msg + 4)) msg len 12 mem) mem)
        s
