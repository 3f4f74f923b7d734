-- ===== src/Term/Cursor.antt =====
-- kernel/term.c: the control sequences that move the cursor.
use epona_os.Base.{
  ℕ, ◌-◌, ◌%◌, ◌^◌, ◌≤◌, ◌<◌, ◌≡◌, refl, sym, ap, ◌∙◌, true, false, List, [], ◌∷◌, ◌++◌, arith,
  subst, length, ◌==◌, if◌then◌else◌,
}
use Prim.Native.Nat.{min}
use epona_os.Console.{vga_cols, vga_rows, set_cursor}
use epona_os.Console.Cursor.{at_cursor, set_cursor_lem}
use epona_os.Term.{
  ts_ground, ts_csi, Display, in_state, csi_dispatch, csi_putc, putc_in, putc, print, esc, between,
  param_or,
}
use epona_os.Term.Plain.{print-append}
use epona_os.Term.Params.{IsNumeral, number, entry, Collected, opened, opened_none}
use epona_os.Term.Sequence.{
  Complete, csi_text, params_lem, values, empty_separator, numeral-Complete,
}

-- Only the cursor has moved, to the place, and the parameters have changed: the interpreter is back at plain
-- text.
pub record MovedTo (row col : ℕ) (d d' : Display) : Type 0 where
  pub moved : d'.con ≡ at_cursor row col d.con
  pub back : d'.ctx.state ≡ ts_ground
  pub fg_same : d'.ctx.fg ≡ d.ctx.fg
  pub bg_same : d'.ctx.bg ≡ d.ctx.bg
  pub row_same : d'.ctx.saved_row ≡ d.ctx.saved_row
  pub col_same : d'.ctx.saved_col ≡ d.ctx.saved_col

-- The final byte of a control sequence.
pub putc_final :
    (f : ℕ) (d : Display)
    → between 0x40 0x7e f ≡ true
    → d.ctx.state ≡ ts_csi
    → putc f d ≡ in_state ts_ground (csi_dispatch f d)
unfolding putc putc_in csi_putc
putc_final f d e g =
    let e1 : between b'0' b'9' f ≡ false = ground arith in
    let e2 : (f == b';') ≡ false = ground arith in rw (g, e1, e2, e) refl

-- A sequence whose final byte sets the cursor.
pub after_move :
    (f row col : ℕ) (vs : List ℕ) (d0 d : Display)
    → between 0x40 0x7e f ≡ true
    → Collected vs d0 d
    → csi_dispatch f d ≡ record d { con = set_cursor row col d.con }
    → MovedTo (min row (vga_rows - 1)) (min col (vga_cols - 1)) d0 (putc f d)
after_move f row col vs d0 d e h step =
    let moved : putc f d ≡ in_state ts_ground (record d { con = set_cursor row col d.con }) =
      putc_final f d e h.in_csi ∙ ap (in_state ts_ground) step in
    rw moved (record {
      moved =
          set_cursor_lem row col d.con
          ∙ ap (at_cursor (min row (vga_rows - 1)) (min col (vga_cols - 1))) h.con_same;
      back = refl;
      fg_same = h.fg_same;
      bg_same = h.bg_same;
      row_same = h.row_same;
      col_same = h.col_same;
    })

-- What `csi_dispatch` reads for parameter `i`, when it is small.
pub param_lem :
    (i : ℕ) (vs : List ℕ) (d0 d : Display)
    → Complete vs d0 d
    → i < length vs
    → entry vs i < 2 ^ 31
    → param_or i 1 d.ctx ≡ (if entry vs i == 0 then 1 else entry vs i)
param_lem i vs d0 d h lt small = ground (arith, h.counted, h.so_far.entries i lt)

-- ESC [ row ; column H, with numbers up to 65536, puts the cursor there, counted from 1, or at the last row or
-- column when the number is larger than the screen; 0 counts as 1. Nothing else changes.
pub cursor_position :
    (p q : List ℕ) (d : Display)
    → IsNumeral p
    → IsNumeral q
    → number p ≤ 65536
    → number q ≤ 65536
    → d.ctx.state ≡ ts_ground
    → MovedTo
        (min (number p - 1) (vga_rows - 1))
        (min (number q - 1) (vga_cols - 1))
        d
        (print (csi_text (p ∷ q ∷ []) ++ (b'H' ∷ [])) d)
unfolding csi_dispatch print entry
cursor_position p q d ip iq lp lq g =
    let d' : Display = print (csi_text (p ∷ q ∷ [])) d in
    let vs : List ℕ = values (p ∷ q ∷ []) in
    let c = params_lem p (q ∷ []) d (ip, (iq, _)) (omega arith) g in
    let row : (param_or 0 1 d'.ctx - 1) % 2 ^ 16 ≡ number p - 1 =
      ground (arith, param_lem 0 vs d d' c (omega arith) (omega arith)) in
    let col : (param_or 1 1 d'.ctx - 1) % 2 ^ 16 ≡ number q - 1 =
      ground (arith, param_lem 1 vs d d' c (omega arith) (omega arith)) in
    subst (MovedTo _ _ d) (sym (print-append (csi_text (p ∷ q ∷ [])) (b'H' ∷ []) d)) (
      after_move b'H' (number p - 1) (number q - 1) vs d d' refl c.so_far (
        ap (λ r. record d' { con = set_cursor r ((param_or 1 1 d'.ctx - 1) % 2 ^ 16) d'.con }) row
        ∙ ap (λ k. record d' { con = set_cursor (number p - 1) k d'.con }) col))

-- An empty first parameter is lost: ESC [ ; column H puts the cursor in the row of that number and the
-- first column, and not in the first row and the column of that number.
pub empty_parameter :
    (q : List ℕ) (d : Display)
    → IsNumeral q
    → number q ≤ 65536
    → d.ctx.state ≡ ts_ground
    → MovedTo
        (min (number q - 1) (vga_rows - 1))
        0
        d
        (print ((esc ∷ b'[' ∷ b';' ∷ []) ++ (q ++ (b'H' ∷ []))) d)
unfolding csi_dispatch entry print
empty_parameter q d iq le g =
    let d1 : Display = print (esc ∷ b'[' ∷ []) d in
    let d2 : Display = print q (putc b';' d1) in
    let c =
      numeral-Complete q d (putc b';' d1) iq
        (empty_separator d d1 (opened d g) (opened_none d g)) in
    let row : (param_or 0 1 d2.ctx - 1) % 2 ^ 16 ≡ number q - 1 =
      ground (arith, param_lem 0 (values (q ∷ [])) d d2 c (omega arith) (omega arith)) in
    let col : (param_or 1 1 d2.ctx - 1) % 2 ^ 16 ≡ 0 = ground (arith, c.counted) in
    subst (MovedTo (min (number q - 1) (vga_rows - 1)) 0 d)
      (sym (print-append q (b'H' ∷ []) (putc b';' d1)))
      (after_move b'H' (number q - 1) 0 (values (q ∷ [])) d d2 refl c.so_far (
        ap (λ r. record d2 { con = set_cursor r ((param_or 1 1 d2.ctx - 1) % 2 ^ 16) d2.con }) row
        ∙ ap (λ k. record d2 { con = set_cursor (number q - 1) k d2.con }) col))
