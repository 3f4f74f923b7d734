-- ===== src/Net/Dns/Labels.antt =====
-- net/net.c: dns_skip_name passes over a name as dns_write_name writes it.
use epona_os.Base.{
  ℕ, zero, suc, ◌+◌, ◌≤◌, ◌<◌, ◌≡◌, refl, ap, ◌∙◌, inl, inr, some, List, [], ◌∷◌, arith, Arr, subst,
  length, length-append, leb, Bool-cases, Spells, Spells-append,
}
use epona_os.Net.Dns.{ends, goes_on, skip_label, skip_name_in}
use epona_os.Net.Dns.Name.{AllLabels, wire_name}

skip_name_in-goes_on :
    (rounds msg len off : ℕ) (mem : Arr) {off' : ℕ}
    → skip_label msg len off mem ≡ goes_on off'
    → skip_name_in (suc rounds) msg len off mem ≡ skip_name_in rounds msg len off' mem
unfolding skip_name_in
skip_name_in-goes_on rounds msg len off mem e = rw (e, skip_name_in) refl

pub skip_name_in-ends :
    (rounds msg len off : ℕ) (mem : Arr) {off' : ℕ}
    → skip_label msg len off mem ≡ ends off'
    → skip_name_in rounds msg len off mem ≡ some off'
unfolding skip_name_in
skip_name_in-ends zero msg len off mem e = rw (e, skip_name_in) refl
skip_name_in-ends (suc rounds) msg len off mem e = rw (e, skip_name_in) refl

skip_label-label :
    (n msg len off : ℕ) (mem : Arr)
    → 0 < n
    → n ≤ 63
    → mem (msg + off) ≡ n
    → off + 1 + n ≤ len
    → skip_label msg len off mem ≡ goes_on (off + 1 + n)
unfolding skip_label
skip_label-label n msg len off mem lt short e room = ground (arith, e)

skip_label-zero :
    (msg len off : ℕ) (mem : Arr)
    → mem (msg + off) ≡ 0
    → off < len
    → skip_label msg len off mem ≡ ends (off + 1)
unfolding skip_label
skip_label-zero msg len off mem e room = ground (arith, e)

-- A name of at most as many labels as `dns_skip_name` passes over leads to the offset behind it.
pub skip_name_in-wire_name :
    (ls : List (List ℕ)) (rounds msg len off : ℕ) (mem : Arr)
    → AllLabels ls
    → length ls ≤ rounds
    → Spells mem (msg + off) (wire_name ls)
    → off + length (wire_name ls) ≤ len
    → skip_name_in rounds msg len off mem ≡ some (off + length (wire_name ls))
skip_name_in-wire_name [] rounds msg len off mem all le (z, s) room =
    skip_name_in-ends rounds msg len off mem (skip_label-zero msg len off mem z (omega arith))
skip_name_in-wire_name (l ∷ ls) zero msg len off mem all le s room = absurd (omega arith)
skip_name_in-wire_name (l ∷ ls) (suc rounds) msg len off mem ((lt, short, nd), all) le (n, s) room =
    let la = length-append l (wire_name ls) in
    let e : msg + off + 1 + length l ≡ msg + (off + 1 + length l) = omega arith in
    let parts = Spells-append mem (msg + off + 1) l (wire_name ls) s in
    skip_name_in-goes_on rounds msg len off mem
      (skip_label-label (length l) msg len off mem lt short n (omega (arith, la)))
    ∙ skip_name_in-wire_name ls rounds msg len (off + 1 + length l) mem all (omega arith)
        (subst (λ k. Spells mem k (wire_name ls)) e parts.1) (omega (arith, la))
    ∙ ap some (omega (arith, la))

-- What `dns_skip_name` returns lies within the message, and it reads nothing outside.
pub skip_label-local :
    (msg len off : ℕ) (a b : Arr)
    → ((j : ℕ) → j < len → a (msg + j) ≡ b (msg + j))
    → skip_label msg len off a ≡ skip_label msg len off b
unfolding skip_label
skip_label-local msg len off a b h = elim (Bool-cases (leb len off)) [
  | inl e ↦ rw e refl
  | inr e ↦ ground (arith, h off (ground arith))
]
