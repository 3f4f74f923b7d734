-- ===== src/Net/Dns/Answer.antt =====
-- net/net.c: a query is passed over as it was written, and an answer to it starts the connection.
use epona_os.Base.{
  ℕ, suc, ◌+◌, ◌≤◌, ◌<◌, ◌≡◌, refl, ap, ◌∙◌, true, false, ◌&&◌, some, List, ◌∷◌, arith, Arr, length,
  ltb, ◌==◌, Spells,
}
use epona_os.Net.State.{Net, host_name}
use epona_os.Net.Tcp.{start}
use epona_os.Net.Dhcp.{be_half, le_word}
use epona_os.Net.Dns.{
  write_name, ends, skip_label, skip_name, skip_questions, find_address, after_questions, answered,
  handle_dns, dns_xid,
}
use epona_os.Net.Dns.Name.{AllLabels, dotted, wire_name, write_name-Written}
use epona_os.Net.Dns.Labels.{skip_name_in-wire_name, skip_name_in-ends}

-- `dns_skip_name` leads to the end of what `dns_write_name` wrote, for a host name of at most 64 labels of 1
-- to 63 characters whose form on the wire fits into the buffer.
pub skip_name-write_name :
    (l : List ℕ) (ls : List (List ℕ)) (out_len : ℕ) (out : Arr)
    → AllLabels (l ∷ ls)
    → length (l ∷ ls) ≤ 64
    → length (wire_name (l ∷ ls)) ≤ out_len
    → (n : ℕ) × (out' : Arr) × (write_name (dotted (l ∷ ls)) 0 0 0 out_len out ≡ (some n, out'))
      × (skip_name 0 n 0 out' ≡ some n)
unfolding skip_name
skip_name-write_name l ls out_len out all few room =
    let w = write_name-Written l ls 0 0 out_len out all (omega arith) in
    let n : ℕ = 0 + length (wire_name (l ∷ ls)) in
    (
      n,
      w.out',
      w.result,
      skip_name_in-wire_name (l ∷ ls) 64 0 n 0 w.out' all few w.spelled (omega arith),
    )

-- A reply with one question, for the name `ls`, and one answer that refers back to it and gives four bytes.
pub record IsAnswer (msg len : ℕ) (mem : Arr) (ls : List (List ℕ)) : Type 0 where
  pub id : be_half mem msg ≡ dns_xid
  pub questions : be_half mem (msg + 4) ≡ 1
  pub answers : be_half mem (msg + 6) ≡ 1
  pub labels : AllLabels ls
  pub few : length ls ≤ 64
  pub name : Spells mem (msg + 12) (wire_name ls)
  pub pointer : mem (msg + (12 + length (wire_name ls) + 4)) ≡ 0xc0
  pub kind : be_half mem (msg + (12 + length (wire_name ls) + 4 + 2)) ≡ 1
  pub klass : be_half mem (msg + (12 + length (wire_name ls) + 4 + 2) + 2) ≡ 1
  pub size : be_half mem (msg + (12 + length (wire_name ls) + 4 + 2) + 8) ≡ 4
  pub room : 12 + length (wire_name ls) + 4 + 16 ≤ len

-- The offset of the answer.
abbrev pub answer_at : List (List ℕ) → ℕ
answer_at ls = 12 + length (wire_name ls) + 4

skip_questions-step :
    (n msg len off : ℕ) (mem : Arr) {off' : ℕ}
    → skip_name msg len off mem ≡ some off'
    → off' + 4 ≤ len
    → skip_questions (suc n) msg len off mem ≡ skip_questions n msg len (off' + 4) mem
unfolding skip_questions
skip_questions-step n msg len off mem {off'} e room =
    let fits : ltb len (off' + 4) ≡ false = ground arith in rw (e, skip_questions, fits) refl

skip_questions_one :
    (msg len : ℕ) (mem : Arr) (ls : List (List ℕ))
    → IsAnswer msg len mem ls
    → skip_questions 1 msg len 12 mem ≡ some (answer_at ls)
unfolding skip_questions skip_name
skip_questions_one msg len mem ls h =
    skip_questions-step 0 msg len 12 mem
      (skip_name_in-wire_name ls 64 msg len 12 mem h.labels h.few h.name (omega (arith, h.room)))
      (omega (arith, h.room))

skip_label-pointer :
    (msg len off : ℕ) (mem : Arr)
    → mem (msg + off) ≡ 0xc0
    → off + 1 < len
    → skip_label msg len off mem ≡ ends (off + 2)
unfolding skip_label
skip_label-pointer msg len off mem e room = ground (arith, e)

find_address-step :
    (n msg len off : ℕ) (mem : Arr) {at : ℕ}
    → skip_name msg len off mem ≡ some at
    → be_half mem (msg + at) ≡ 1
    → be_half mem (msg + at + 2) ≡ 1
    → be_half mem (msg + at + 8) ≡ 4
    → at + 14 ≤ len
    → find_address (suc n) msg len off mem ≡ some (le_word mem (msg + at + 10))
unfolding find_address
find_address-step n msg len off mem {at} e k c r room =
    let e1 : ltb len (at + 10) ≡ false = ground arith in
    let e2 : ltb len (at + 10 + be_half mem (msg + at + 8)) ≡ false = ground (arith, r) in
    let e3 : (be_half mem (msg + at) == 1
          && be_half mem (msg + at + 2) == 1
          && be_half mem (msg + at + 8) == 4)
        ≡ true =
      ground (arith, k, c, r) in
    rw (e, find_address, e1, e2, e3) refl

-- On such a reply `handle_dns` records its address, takes over the name that was asked for as the host of
-- the request, and opens the connection to the address.
pub handle_dns-answer :
    (msg len : ℕ) (mem : Arr) (ls : List (List ℕ)) (s : Net)
    → IsAnswer msg len mem ls
    → handle_dns msg len mem s ≡ (
        let ip = le_word mem (msg + (answer_at ls + 2) + 10) in
        start ip (record s { dns_answer_ip = ip; http_host = host_name s.dns_host }))
unfolding handle_dns answered skip_name
handle_dns-answer msg len mem ls s h =
    let e0 : ltb len 12 ≡ false = ground (arith, h.room) in
    let e1 : (be_half mem msg == dns_xid) ≡ true = ground (arith, h.id) in
    let off : ℕ = answer_at ls in
    let found =
      find_address-step 0 msg len off mem
        (skip_name_in-ends 64 msg len off mem
          (skip_label-pointer msg len off mem h.pointer (omega (arith, h.room))))
        h.kind h.klass h.size (omega (arith, h.room)) in
    let first : skip_questions (be_half mem (msg + 4)) msg len 12 mem ≡ some off =
      ap (λ n. skip_questions n msg len 12 mem) h.questions ∙ skip_questions_one msg len mem ls h in
    let all : after_questions (be_half mem (msg + 6)) msg len
          (skip_questions (be_half mem (msg + 4)) msg len 12 mem) mem
        ≡ some (le_word mem (msg + (off + 2) + 10)) =
      ap (λ o. after_questions (be_half mem (msg + 6)) msg len o mem) first
      ∙ ap (λ n. find_address n msg len off mem) h.answers
      ∙ found in
    rw (e0, e1, all) refl
