-- ===== src/Term/Params.antt =====
-- kernel/term.c: the parameters of a control sequence are its decimal numbers.
use epona_os.Base.{
  ℕ, zero, suc, ◌+◌, ◌-◌, ◌*◌, ◌%◌, ◌^◌, ◌≤◌, ◌<◌, ◌≡◌, refl, ◌∙◌, ◌⊎◌, inr, true, false, List, [],
  ◌∷◌, ◌++◌, arith, subst, length,
}
use epona_os.Term.{
  ts_ground, ts_csi, TermCtx, Display, max_params, params_reset, param_digit, csi_putc, putc_in,
  putc, print, esc, between,
}
use epona_os.Term.Plain.{AllOf}

abbrev pub IsDigit : ℕ → Type 0
IsDigit c = (b'0' ≤ c) × (c ≤ b'9')

-- At least one digit.
abbrev pub IsNumeral : List ℕ → Type 0
IsNumeral [] = ⊥
IsNumeral (c ∷ cs) = IsDigit c × AllOf IsDigit cs

-- The number that decimal digits denote, behind digits of value `v`.
unfoldable pub number_from : ℕ → List ℕ → ℕ
number_from v [] = v
number_from v (c ∷ cs) = number_from (v * 10 + (c - b'0')) cs

unfoldable pub number : List ℕ → ℕ
number cs = number_from 0 cs

-- Entry `i`.
unfoldable pub entry : List ℕ → ℕ → ℕ
entry [] i = 0
entry (x ∷ xs) zero = x
entry (x ∷ xs) (suc i) = entry xs i

pub entry-append : (xs : List ℕ) (v i : ℕ) → i < length xs → entry (xs ++ (v ∷ [])) i ≡ entry xs i
unfolding entry
entry-append [] v i h = elim h [ ]
entry-append (x ∷ xs) v zero h = refl
entry-append (x ∷ xs) v (suc i) h = entry-append xs v i (omega arith)

pub entry-last : (xs : List ℕ) (v : ℕ) → entry (xs ++ (v ∷ [])) (length xs) ≡ v
unfolding entry
entry-last [] v = refl
entry-last (x ∷ xs) v = entry-last xs v

-- Numerals with `;` between them.
abbrev pub join : List (List ℕ) → List ℕ
join [] = []
join (p ∷ []) = p
join (p ∷ q ∷ ps) = p ++ (b';' ∷ join (q ∷ ps))

-- `d` came from `d0` by bytes of a control sequence, and has read the parameters `vs` so far: nothing else
-- is different.
pub record Collected (vs : List ℕ) (d0 d : Display) : Type 0 where
  pub in_csi : d.ctx.state ≡ ts_csi
  pub entries : (i : ℕ) → i < length vs → d.ctx.params i ≡ entry vs i
  pub con_same : d.con ≡ d0.con
  pub fg_same : d.ctx.fg ≡ d0.ctx.fg
  pub bg_same : d.ctx.bg ≡ d0.ctx.bg
  pub row_same : d.ctx.saved_row ≡ d0.ctx.saved_row
  pub col_same : d.ctx.saved_col ≡ d0.ctx.saved_col

-- Before the first digit of the next parameter.
pub record Waiting (vs : List ℕ) (d0 d : Display) : Type 0 where
  pub so_far : Collected vs d0 d
  pub idle : d.ctx.param_active ≡ false
  pub counted : (d.ctx.nparams ≡ length vs + 1) ⊎ ((length vs ≡ 0) × (d.ctx.nparams ≡ 0))

-- Behind a digit of the parameter that stands last in `vs`.
pub record Reading (vs : List ℕ) (v : ℕ) (d0 d : Display) : Type 0 where
  pub so_far : Collected vs d0 d
  pub active : d.ctx.param_active ≡ true
  pub counted : d.ctx.nparams ≡ length vs + 1
  pub value : d.ctx.params (length vs) ≡ v

pub opened : (d : Display) → d.ctx.state ≡ ts_ground → Waiting [] d (print (esc ∷ b'[' ∷ []) d)
unfolding print putc putc_in params_reset
opened d g = rw g (record {
  so_far = record {
    in_csi = refl;
    entries = λ i h. elim h [ ];
    con_same = refl;
    fg_same = refl;
    bg_same = refl;
    row_same = refl;
    col_same = refl;
  };
  idle = refl;
  counted = inr (refl, refl);
})

pub opened_none :
    (d : Display) → d.ctx.state ≡ ts_ground → (print (esc ∷ b'[' ∷ []) d).ctx.nparams ≡ 0
unfolding print putc putc_in params_reset
opened_none d g = rw g refl

abbrev digit : ℕ → Display → Display
digit c d = record d { ctx = param_digit (c - b'0') d.ctx }

putc-digit : (c : ℕ) (d : Display) → IsDigit c → d.ctx.state ≡ ts_csi → putc c d ≡ digit c d
unfolding putc putc_in csi_putc
putc-digit c d (lo, hi) g = let e : between b'0' b'9' c ≡ true = ground arith in rw (g, e) refl

-- The fields that a digit does not touch.
abbrev pub Alike : TermCtx → TermCtx → Type 0
Alike c c' =
    (c'.state ≡ c.state)
    × (c'.fg ≡ c.fg)
    × (c'.bg ≡ c.bg)
    × (c'.saved_row ≡ c.saved_row)
    × (c'.saved_col ≡ c.saved_col)

param_digit-Alike : (x : ℕ) (c : TermCtx) → Alike c (param_digit x c)
unfolding param_digit
param_digit-Alike x c = ground arith

pub Collected-step :
    (vs : List ℕ) (d0 d : Display) (c : TermCtx)
    → Collected vs d0 d
    → Alike d.ctx c
    → ((i : ℕ) → i < length vs → c.params i ≡ d.ctx.params i)
    → Collected vs d0 (record d { ctx = c })
Collected-step vs d0 d c h (st, f, b, r, k) e = record {
  in_csi = st ∙ h.in_csi;
  entries = λ i lt. e i lt ∙ h.entries i lt;
  con_same = h.con_same;
  fg_same = f ∙ h.fg_same;
  bg_same = b ∙ h.bg_same;
  row_same = r ∙ h.row_same;
  col_same = k ∙ h.col_same;
}

first_digit :
    (c : ℕ) (vs : List ℕ) (d0 d : Display)
    → IsDigit c
    → length vs < max_params
    → Waiting vs d0 d
    → Reading vs ((c - b'0') % 2 ^ 32) d0 (putc c d)
unfolding param_digit
first_digit c vs d0 d is lt w = rw (putc-digit c d is w.so_far.in_csi) (record {
  so_far =
      Collected-step vs d0 d (param_digit (c - b'0') d.ctx) w.so_far (param_digit-Alike _ d.ctx)
        (λ i h. ground (arith, w.idle, w.counted));
  active = ground (arith, w.idle, w.counted);
  counted = ground (arith, w.idle, w.counted);
  value = ground (arith, w.idle, w.counted);
})

next_digit :
    (c v : ℕ) (vs : List ℕ) (d0 d : Display)
    → IsDigit c
    → length vs < max_params
    → Reading vs v d0 d
    → Reading vs ((v * 10 + (c - b'0')) % 2 ^ 32) d0 (putc c d)
unfolding param_digit
next_digit c v vs d0 d is lt r = rw (putc-digit c d is r.so_far.in_csi) (record {
  so_far =
      Collected-step vs d0 d (param_digit (c - b'0') d.ctx) r.so_far (param_digit-Alike _ d.ctx)
        (λ i h. ground (arith, r.active, r.counted));
  active = ground (arith, r.active, r.counted);
  counted = ground (arith, r.active, r.counted);
  value = ground (arith, r.active, r.counted, r.value);
})

-- All digits of a numeral, behind digits of value `v`.
more_digits :
    (cs : List ℕ) (v : ℕ) (vs : List ℕ) (d0 d : Display)
    → AllOf IsDigit cs
    → length vs < max_params
    → Reading vs (v % 2 ^ 32) d0 d
    → Reading vs (number_from v cs % 2 ^ 32) d0 (print cs d)
unfolding number_from print
more_digits [] v vs d0 d is lt r = r
more_digits (c ∷ cs) v vs d0 d (is, are) lt r =
    let e : (v % 2 ^ 32 * 10 + (c - b'0')) % 2 ^ 32 ≡ (v * 10 + (c - b'0')) % 2 ^ 32 =
      omega arith in
    more_digits cs (v * 10 + (c - b'0')) vs d0 (putc c d) are lt
      (subst (λ x. Reading vs x d0 (putc c d)) e (next_digit c (v % 2 ^ 32) vs d0 d is lt r))

pub numeral :
    (p : List ℕ) (vs : List ℕ) (d0 d : Display)
    → IsNumeral p
    → length vs < max_params
    → Waiting vs d0 d
    → Reading vs (number p % 2 ^ 32) d0 (print p d)
unfolding number number_from print
numeral [] vs d0 d is lt w = absurd is
numeral (c ∷ cs) vs d0 d (is, are) lt w =
    let e : (c - b'0') % 2 ^ 32 ≡ (0 * 10 + (c - b'0')) % 2 ^ 32 = omega arith in
    more_digits cs (0 * 10 + (c - b'0')) vs d0 (putc c d) are lt
      (subst (λ x. Reading vs x d0 (putc c d)) e (first_digit c vs d0 d is lt w))
