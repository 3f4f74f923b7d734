-- ===== src/Term/Sequence.antt =====
-- kernel/term.c: a control sequence with decimal numbers leaves exactly them in the parameters.
use epona_os.Base.{
  ℕ, ◌+◌, ◌%◌, ◌^◌, ◌≤◌, ◌<◌, ◌≡◌, refl, sym, ap, ◌∙◌, inl, inr, List, [], ◌∷◌, ◌++◌, arith, subst,
  length, length-append, ◌==◌, Bool-cases,
}
use mathlib.Core.List.{append_assoc}
use epona_os.Term.{
  ts_ground, ts_csi, TermCtx, Display, max_params, param_sep, csi_putc, putc_in, putc, print, esc,
}
use epona_os.Term.Plain.{print-append}
use epona_os.Term.Params.{
  IsNumeral, number, entry, entry-append, entry-last, join, Collected, Waiting, Reading, opened,
  numeral, Alike, Collected-step,
}

param_sep-Alike : (c : TermCtx) → Alike c (param_sep c)
unfolding param_sep
param_sep-Alike c = ground arith

-- Behind a parameter, it counts among those that have been read.
Reading-Collected :
    (v : ℕ) (vs : List ℕ) (d0 d : Display) → Reading vs v d0 d → Collected (vs ++ (v ∷ [])) d0 d
Reading-Collected v vs d0 d r =
    let h = r.so_far in
    record {
      in_csi = h.in_csi;
      entries = λ i lt. elim (Bool-cases (i == length vs)) [
        | inl e ↦
            let same : i ≡ length vs = ground arith in
            ap d.ctx.params same
            ∙ r.value
            ∙ sym (ap (λ k. entry (vs ++ (v ∷ [])) k) same ∙ entry-last vs v)
        | inr e ↦
            let less : i < length vs = ground (arith, length-append vs (v ∷ [])) in
            h.entries i less ∙ sym (entry-append vs v i less)
      ];
      con_same = h.con_same;
      fg_same = h.fg_same;
      bg_same = h.bg_same;
      row_same = h.row_same;
      col_same = h.col_same;
    }

putc_separator :
    (d : Display) → d.ctx.state ≡ ts_csi → putc b';' d ≡ record d { ctx = param_sep d.ctx }
unfolding putc putc_in csi_putc
putc_separator d g = rw g refl

separator :
    (v : ℕ) (vs : List ℕ) (d0 d : Display)
    → length vs + 1 < max_params
    → Reading vs v d0 d
    → Waiting (vs ++ (v ∷ [])) d0 (putc b';' d)
unfolding param_sep
separator v vs d0 d lt r = rw (putc_separator d r.so_far.in_csi) (record {
  so_far =
      Collected-step (vs ++ (v ∷ [])) d0 d (param_sep d.ctx) (Reading-Collected v vs d0 d r)
        (param_sep-Alike d.ctx) (λ i h. ground (arith, r.counted, length-append vs (v ∷ [])));
  idle = ground (arith, r.counted);
  counted = inl (ground (arith, r.counted, length-append vs (v ∷ [])));
})

-- The values of the parameters.
abbrev pub values : List (List ℕ) → List ℕ
values [] = []
values (p ∷ ps) = number p % 2 ^ 32 ∷ values ps

abbrev pub AreNumerals : List (List ℕ) → Type 0
AreNumerals [] = Unit
AreNumerals (p ∷ ps) = IsNumeral p × AreNumerals ps

-- Before the final byte of a control sequence: the context holds exactly the parameters `vs`.
pub record Complete (vs : List ℕ) (d0 d : Display) : Type 0 where
  pub so_far : Collected vs d0 d
  pub counted : d.ctx.nparams ≡ length vs

all_numerals :
    (p : List ℕ) (ps : List (List ℕ)) (vs : List ℕ) (d0 d : Display)
    → AreNumerals (p ∷ ps)
    → length vs + length ps < max_params
    → Waiting vs d0 d
    → Complete (vs ++ values (p ∷ ps)) d0 (print (join (p ∷ ps)) d)
unfolding print
all_numerals p [] vs d0 d (is, _) lt w =
    let r = numeral p vs d0 d is (omega arith) w in
    record {
      so_far = Reading-Collected _ vs d0 _ r;
      counted = omega (arith, r.counted, length-append vs (number p % 2 ^ 32 ∷ []));
    }
all_numerals p (q ∷ ps) vs d0 d (is, are) lt w =
    let v : ℕ = number p % 2 ^ 32 in
    let r = numeral p vs d0 d is (omega arith) w in
    let next = separator v vs d0 (print p d) (omega arith) r in
    let rest =
      all_numerals q ps (vs ++ (v ∷ [])) d0 (putc b';' (print p d)) are
        (omega (arith, length-append vs (v ∷ []))) next in
    subst (λ x. Complete (vs ++ values (p ∷ q ∷ ps)) d0 x)
      (sym (print-append p (b';' ∷ join (q ∷ ps)) d))
      (subst (λ l. Complete l d0 (print (join (q ∷ ps)) (putc b';' (print p d))))
        (append_assoc vs (v ∷ []) (values (q ∷ ps))) rest)

-- The bytes of a control sequence before its final byte.
abbrev pub csi_text : List (List ℕ) → List ℕ
csi_text ps = esc ∷ b'[' ∷ join ps

-- ESC [ and 1 to 16 decimal numbers with `;` between them leave exactly those numbers, modulo 2^32, in
-- this order in the parameters, and change neither the console, the colours nor the saved cursor.
pub params_lem :
    (p : List ℕ) (ps : List (List ℕ)) (d : Display)
    → AreNumerals (p ∷ ps)
    → length (p ∷ ps) ≤ max_params
    → d.ctx.state ≡ ts_ground
    → Complete (values (p ∷ ps)) d (print (csi_text (p ∷ ps)) d)
params_lem p ps d are le g =
    subst (λ x. Complete (values (p ∷ ps)) d x)
      (sym (print-append (esc ∷ b'[' ∷ []) (join (p ∷ ps)) d))
      (all_numerals p ps [] d (print (esc ∷ b'[' ∷ []) d) are (omega arith) (opened d g))

-- A separator before any digit does not count as a parameter.
pub empty_separator :
    (d0 d : Display) → Waiting [] d0 d → d.ctx.nparams ≡ 0 → Waiting [] d0 (putc b';' d)
unfolding param_sep
empty_separator d0 d w zeroed = rw (putc_separator d w.so_far.in_csi) (record {
  so_far =
      Collected-step [] d0 d (param_sep d.ctx) w.so_far (param_sep-Alike d.ctx) (λ i h. elim h [ ]);
  idle = ground (arith, zeroed);
  counted = inl (ground (arith, zeroed));
})

pub numeral-Complete :
    (p : List ℕ) (d0 d : Display)
    → IsNumeral p
    → Waiting [] d0 d
    → Complete (number p % 2 ^ 32 ∷ []) d0 (print p d)
numeral-Complete p d0 d is w =
    let r = numeral p [] d0 d is (omega arith) w in
    record { so_far = Reading-Collected _ [] d0 _ r; counted = r.counted }
