-- ===== src/Net/Dhcp/Parse.antt =====
-- net/net.c: parse_dhcp_options reads only the options, ends, and finds what dhcp_add_option wrote.
use epona_os.Base.{
  ℕ, zero, suc, ◌+◌, ◌*◌, ◌^◌, ◌≤◌, ◌<◌, ◌≡◌, refl, sym, ap, ◌∙◌, ◌≢◌, inl, inr, ◌&&◌, none, some,
  List, [], ◌∷◌, ◌++◌, arith, Arr, subst, length, length-append, ltb, leb, ◌==◌, if◌then◌else◌,
  Bool-cases, Option-cases, Spells, Spells-append,
}
use mathlib.Core.List.{append_assoc}
use epona_os.Net.Dhcp.{Options, take_option, option_step, parse_options, add_option, le_word}

-- The two memories hold the same bytes from `at` on, `n` of them.
abbrev pub SameBytes : (at n : ℕ) → Arr → Arr → Type 0
SameBytes at n a b = (j : ℕ) → j < n → a (at + j) ≡ b (at + j)

same_at : (at n i j : ℕ) (a b : Arr) → SameBytes at n a b → i ≡ at + j → j < n → a i ≡ b i
same_at at n i j a b h e lt = ap a e ∙ h j lt ∙ ap b (sym e)

le_word-local :
    (olen i opt n : ℕ) (a b : Arr)
    → SameBytes opt n a b
    → i + olen ≤ n
    → 4 ≤ olen
    → le_word a (opt + i) ≡ le_word b (opt + i)
le_word-local olen i opt n a b h le four =
    let e0 = same_at opt n (opt + i) i a b h refl (omega arith) in
    let e1 = same_at opt n (opt + i + 1) (i + 1) a b h (omega arith) (omega arith) in
    let e2 = same_at opt n (opt + i + 2) (i + 2) a b h (omega arith) (omega arith) in
    let e3 = same_at opt n (opt + i + 3) (i + 3) a b h (omega arith) (omega arith) in
    omega (arith, e0, e1, e2, e3)

take_option-local :
    (code olen i opt n : ℕ) (a b : Arr) (o : Options)
    → SameBytes opt n a b
    → i + olen ≤ n
    → take_option code olen (opt + i) a o ≡ take_option code olen (opt + i) b o
unfolding take_option
take_option-local code olen i opt n a b o h le = elim (Bool-cases (code == 53 && leb 1 olen)) [
  | inl e1 ↦
      let e = same_at opt n (opt + i) i a b h refl (ground arith) in
      rw e1 (ap (λ x. record o { msg_type = x }) e)
  | inr e1 ↦ elim (Bool-cases (code == 54 && leb 4 olen)) [
    | inl e2 ↦
        rw (e1, e2)
          (ap (λ x. record o { server_ip = x })
            (le_word-local olen i opt n a b h le (ground arith)))
    | inr e2 ↦ elim (Bool-cases (code == 3 && leb 4 olen)) [
      | inl e3 ↦
          rw (e1, e2, e3)
            (ap (λ x. record o { router_ip = x })
              (le_word-local olen i opt n a b h le (ground arith)))
      | inr e3 ↦ elim (Bool-cases (code == 6 && leb 4 olen)) [
        | inl e4 ↦
            rw (e1, e2, e3, e4)
              (ap (λ x. record o { dns_ip = x })
                (le_word-local olen i opt n a b h le (ground arith)))
        | inr e4 ↦ rw (e1, e2, e3, e4) refl
      ]
    ]
  ]
]

-- One round reads no byte outside the options, and goes on to a later index.
option_step-local :
    (i len opt : ℕ) (a b : Arr) (o : Options)
    → SameBytes opt len a b
    → option_step i len opt a o ≡ option_step i len opt b o
unfolding option_step
option_step-local i len opt a b o h = elim (Bool-cases (leb len i)) [
  | inl e ↦ rw e refl
  | inr e ↦
      let c = h i (ground arith) in
      elim (Bool-cases (leb len (i + 1))) [
        | inl e' ↦ ground (arith, c)
        | inr e' ↦
            let l = h (i + 1) (ground arith) in
            elim (Bool-cases (ltb len (i + 2 + a (opt + (i + 1))))) [
              | inl long ↦ ground (arith, c, l)
              | inr fits ↦
                  let t =
                    take_option-local (a (opt + i)) (a (opt + (i + 1))) (i + 2) opt len a b o h
                      (ground arith) in
                  ground (arith, c, l, t)
            ]
      ]
]

option_step-some :
    (i len opt : ℕ) (a : Arr) (o : Options) {i' : ℕ} {o' : Options}
    → option_step i len opt a o ≡ some (i', o')
    → (i < i') × (i' ≤ len)
unfolding option_step
option_step-some i len opt a o e = ground arith

parse_options-stop :
    (fuel i len opt : ℕ) (a : Arr) (o : Options)
    → option_step i len opt a o ≡ none
    → parse_options (suc fuel) i len opt a o ≡ some o
unfolding parse_options
parse_options-stop fuel i len opt a o e = rw (e, parse_options) refl

parse_options-go :
    (fuel i len opt : ℕ) (a : Arr) (o : Options) {i' : ℕ} {o' : Options}
    → option_step i len opt a o ≡ some (i', o')
    → parse_options (suc fuel) i len opt a o ≡ parse_options fuel i' len opt a o'
unfolding parse_options
parse_options-go fuel i len opt a o e = rw (e, parse_options) refl

-- With a round of fuel for each byte and one more, `parse_dhcp_options` ends, and what it finds depends on
-- no byte outside the options.
pub parse_options-local :
    (fuel i len opt : ℕ) (a b : Arr) (o : Options)
    → i ≤ len
    → len < i + fuel
    → SameBytes opt len a b
    → (r : Options) × (parse_options fuel i len opt a o ≡ some r)
      × (parse_options fuel i len opt b o ≡ some r)
unfolding parse_options
parse_options-local zero i len opt a b o le lt h = absurd (omega arith)
parse_options-local (suc fuel) i len opt a b o le lt h =
    elim (Option-cases (option_step i len opt a o)) [
      | inl e ↦ (
        o,
        parse_options-stop fuel i len opt a o e,
        parse_options-stop fuel i len opt b o (sym (option_step-local i len opt a b o h) ∙ e),
      )
      | inr ((i', o'), e) ↦
          let p = option_step-some i len opt a o e in
          let r = parse_options-local fuel i' len opt a b o' p.1 (omega (arith, p.0)) h in
          (
            r.0,
            parse_options-go fuel i len opt a o e ∙ r.1,
            parse_options-go fuel i len opt b o (sym (option_step-local i len opt a b o h) ∙ e)
                ∙ r.2,
          )
    ]

-- What an option with this code and value says.
unfoldable pub store_word : ℕ → List ℕ → Options → Options
store_word code (a ∷ b ∷ c ∷ d ∷ _) o =
    let word = a + b * 2 ^ 8 + c * 2 ^ 16 + d * 2 ^ 24 in
    if code == 54
    then record o { server_ip = word }
    else if code == 3
    then record o { router_ip = word }
    else if code == 6
    then record o { dns_ip = word }
    else o
store_word code _ o = o

unfoldable pub store : ℕ × List ℕ → Options → Options
store (code, []) o = o
store (code, b ∷ bs) o =
    if code == 53 then record o { msg_type = b } else store_word code (b ∷ bs) o

take_option-store :
    (code i : ℕ) (bytes : List ℕ) (a : Arr) (o : Options)
    → Spells a i bytes
    → take_option code (length bytes) i a o ≡ store (code, bytes) o
unfolding take_option store store_word
take_option-store code i [] a o s = ground arith
take_option-store code i (w ∷ []) a o s = ground arith
take_option-store code i (w ∷ x ∷ []) a o s = ground arith
take_option-store code i (w ∷ x ∷ y ∷ []) a o s = ground arith
take_option-store code i (w ∷ x ∷ y ∷ z ∷ bs) a o (s0, (s1, (s2, (s3, s4)))) =
    let e2 : a (i + 2) ≡ y = ap a (omega arith) ∙ s2 in
    let e3 : a (i + 3) ≡ z = ap a (omega arith) ∙ s3 in ground (arith, s0, s1, e2, e3)

abbrev pub encode : List (ℕ × List ℕ) → List ℕ
encode [] = []
encode ((code, bytes) ∷ os) = add_option code bytes ++ encode os

-- Codes that are not the padding or the end.
abbrev pub AllOptions : List (ℕ × List ℕ) → Type 0
AllOptions [] = Unit
AllOptions ((code, bytes) ∷ os) = ((code ≢ 0) × (code ≢ 255)) × AllOptions os

abbrev pub store_all : List (ℕ × List ℕ) → Options → Options
store_all [] o = o
store_all (x ∷ os) o = store_all os (store x o)

-- One option that `dhcp_add_option` wrote.
option_step-add_option :
    (code i len opt : ℕ) (bytes : List ℕ) (a : Arr) (o : Options)
    → code ≢ 0
    → code ≢ 255
    → Spells a (opt + i) (add_option code bytes)
    → i + 2 + length bytes ≤ len
    → option_step i len opt a o ≡ some (i + 2 + length bytes, store (code, bytes) o)
unfolding option_step add_option
option_step-add_option code i len opt bytes a o n0 n255 (c, (l, s)) le =
    let l' : a (opt + (i + 1)) ≡ length bytes = ap a (omega arith) ∙ l in
    let s' : Spells a (opt + (i + 2)) bytes =
      let e : opt + i + 1 + 1 ≡ opt + (i + 2) = omega arith in subst (λ k. Spells a k bytes) e s in
    let t = take_option-store code (opt + (i + 2)) bytes a o s' in ground (arith, c, l', t)

option_step-end :
    (i len opt : ℕ) (a : Arr) (o : Options) → a (opt + i) ≡ 255 → option_step i len opt a o ≡ none
unfolding option_step
option_step-end i len opt a o e = ground arith

length-add_option : (code : ℕ) (bytes : List ℕ) → length (add_option code bytes) ≡ 2 + length bytes
unfolding add_option
length-add_option code bytes = omega arith

-- Options that `dhcp_add_option` wrote one behind the other, none with the code of the padding or the end and
-- with the end mark behind them, are read back when there is a round of fuel for each byte and one more: of each kind that the kernel uses the last one counts.
pub parse_options-encode :
    (os : List (ℕ × List ℕ)) (fuel i len opt : ℕ) (a : Arr) (o : Options)
    → AllOptions os
    → Spells a (opt + i) (encode os ++ (255 ∷ []))
    → i + length (encode os) < len
    → len < i + fuel
    → parse_options fuel i len opt a o ≡ some (store_all os o)
parse_options-encode os zero i len opt a o all s le lt = absurd (omega arith)
parse_options-encode [] (suc fuel) i len opt a o all s le lt =
    parse_options-stop fuel i len opt a o (option_step-end i len opt a o s.0)
parse_options-encode ((code, bytes) ∷ os) (suc fuel) i len opt a o (h, all) s le lt =
    let one = add_option code bytes in
    let l = length-add_option code bytes in
    let la = length-append one (encode os) in
    let parts =
      Spells-append a (opt + i) one (encode os ++ (255 ∷ []))
        (subst (Spells a (opt + i)) (append_assoc one (encode os) (255 ∷ [])) s) in
    let next_at : opt + i + length one ≡ opt + (i + 2 + length bytes) = omega (arith, l) in
    parse_options-go fuel i len opt a o
      (option_step-add_option code i len opt bytes a o h.0 h.1 parts.0 (omega (arith, l, la)))
    ∙ parse_options-encode os fuel (i + 2 + length bytes) len opt a (store (code, bytes) o) all
        (subst (λ k. Spells a k (encode os ++ (255 ∷ []))) next_at parts.1) (omega (arith, l, la))
        (omega arith)
