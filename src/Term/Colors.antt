-- ===== src/Term/Colors.antt =====
-- kernel/term.c: the control sequences for colours and erasing.
use epona_os.Base.{
  ℕ, ◌+◌, ◌-◌, ◌*◌, ◌/◌, ◌%◌, ◌^◌, ◌≤◌, ◌<◌, bit_and, bit_or, ◌≡◌, refl, sym, ap, ◌∙◌, true, false,
  List, [], ◌∷◌, ◌++◌, arith, subst, ◌==◌, ==_iff, all_below, all_below_sound,
}
use epona_os.Console.{Console, vga_cols, vga_rows, set_color, erase_display, erase_line}
use epona_os.Console.Bounds.{OnScreen}
use epona_os.Console.Cursor.{set_color_lem}
use epona_os.Console.Erase.{Erased, selected, cursor, erase_display_lem, erase_line_lem}
use epona_os.Term.{
  ts_ground, TermCtx, Display, in_state, csi_dispatch, putc, print, between, sgr, sgr_loop,
  apply_sgr, mode_param,
}
use epona_os.Term.Plain.{print-append}
use epona_os.Term.Bounds.{IsValid}
use epona_os.Term.Params.{IsNumeral, number, entry}
use epona_os.Term.Sequence.{csi_text, params_lem}
use epona_os.Term.Cursor.{putc_final}

-- The colour `x` with the bright bit of colour `c`, at every colour.
hue_table :
    all_below 16 (λ c. all_below 8 (λ x. bit_or (bit_and c 8) x % 2 ^ 8 == c / 8 * 8 + x)) ≡ true
unfolding all_below
hue_table = refl

hue : (c x : ℕ) → c < 16 → x < 8 → bit_or (bit_and c 8) x % 2 ^ 8 ≡ c / 8 * 8 + x
hue c x h k = (==_iff _ _).0 (all_below_sound 8 _ x (all_below_sound 16 _ c hue_table h) k)

-- The interpreter is back at plain text with the colours `fg` and `bg`, which the console draws with: only
-- they and the parameters have changed.
pub record Painted (fg bg : ℕ) (d d' : Display) : Type 0 where
  pub fg_now : d'.ctx.fg ≡ fg
  pub bg_now : d'.ctx.bg ≡ bg
  pub painted : d'.con ≡ record (d.con) { color = fg + 16 * bg }
  pub back : d'.ctx.state ≡ ts_ground
  pub row_same : d'.ctx.saved_row ≡ d.ctx.saved_row
  pub col_same : d'.ctx.saved_col ≡ d.ctx.saved_col

sgr_fg :
    (p : ℕ) (c : TermCtx)
    → 30 ≤ p
    → p ≤ 37
    → c.fg < 16
    → sgr p c ≡ record c { fg = c.fg / 8 * 8 + (p - 30) }
unfolding sgr
sgr_fg p c lo hi h =
    let e0 : (p == 0) ≡ false = ground arith in
    let e1 : (p == 1) ≡ false = ground arith in
    let e2 : between 30 37 p ≡ true = ground arith in
    simp (e0, e1, e2, hue c.fg (p - 30) h (omega arith))

sgr_bg : (p : ℕ) (c : TermCtx) → 40 ≤ p → p ≤ 47 → sgr p c ≡ record c { bg = p - 40 }
unfolding sgr
sgr_bg p c lo hi =
    let e0 : (p == 0) ≡ false = ground arith in
    let e1 : (p == 1) ≡ false = ground arith in
    let e2 : between 30 37 p ≡ false = ground arith in
    let e3 : (p == 39) ≡ false = ground arith in
    let e4 : between 40 47 p ≡ true = ground arith in
    let e5 : (p - 40) % 2 ^ 8 ≡ p - 40 = omega arith in simp (e0, e1, e2, e3, e4, e5)

-- Two rounds of the loop of `apply_sgr`, at a foreground and a background.
apply_sgr_two :
    (d : Display) (p q : ℕ)
    → d.ctx.nparams ≡ 2
    → d.ctx.params 0 ≡ p
    → d.ctx.params 1 ≡ q
    → 30 ≤ p
    → p ≤ 37
    → 40 ≤ q
    → q ≤ 47
    → d.ctx.fg < 16
    → apply_sgr d ≡ (
        let c : TermCtx = d.ctx in
        let fg : ℕ = c.fg / 8 * 8 + (p - 30) in
        let bg : ℕ = q - 40 in
        record {
          ctx = record c { fg = fg; bg = bg };
          con = record (d.con) { color = fg + 16 * bg };
        })
unfolding apply_sgr sgr_loop
apply_sgr_two d p q two e0 e1 p0 p1 q0 q1 small =
    let c : TermCtx = d.ctx in
    let fg : ℕ = c.fg / 8 * 8 + (p - 30) in
    let e : (c.nparams == 0) ≡ false = ground (arith, two) in
    let first : sgr (c.params 0) c ≡ record c { fg = fg } =
      ap (λ k. sgr k c) e0 ∙ sgr_fg p c p0 p1 small in
    let loop : sgr_loop c.nparams 0 c ≡ record c { fg = fg; bg = q - 40 } =
      ap (λ n. sgr_loop n 0 c) two
      ∙ ap (λ (x : TermCtx). sgr (x.params 1) x) first
      ∙ ap (λ k. sgr k (record c { fg = fg })) e1
      ∙ sgr_bg q (record c { fg = fg }) q0 q1 in
    rw e (
      ap (λ (x : TermCtx). let con = set_color x.fg x.bg d.con in record { ctx = x; con = con })
        loop
      ∙ ap
          (λ con.
            let ctx : TermCtx = record c { fg = fg; bg = q - 40 } in
            record { ctx = ctx; con = con })
          (set_color_lem fg (q - 40) d.con (omega arith) (omega arith)))

-- ESC [ 3x ; 4y m sets the foreground to VGA colour `x`, as bright as it was, and the background to VGA
-- colour `y`; the console draws with them from then on, and nothing else changes.
pub set_colors :
    (p q : List ℕ) (d : Display)
    → IsNumeral p
    → IsNumeral q
    → 30 ≤ number p
    → number p ≤ 37
    → 40 ≤ number q
    → number q ≤ 47
    → d.ctx.state ≡ ts_ground
    → IsValid d.ctx
    → Painted
        (d.ctx.fg / 8 * 8 + (number p - 30))
        (number q - 40)
        d
        (print (csi_text (p ∷ q ∷ []) ++ (b'm' ∷ [])) d)
unfolding csi_dispatch entry print
set_colors p q d ip iq p0 p1 q0 q1 g v =
    let d' : Display = print (csi_text (p ∷ q ∷ [])) d in
    let c = params_lem p (q ∷ []) d (ip, (iq, _)) (omega arith) g in
    let h = c.so_far in
    let step =
      putc_final b'm' d' refl h.in_csi
      ∙ ap (in_state ts_ground) (
          apply_sgr_two d' (number p) (number q) c.counted (h.entries 0 (omega arith) ∙ omega arith)
            (h.entries 1 (omega arith) ∙ omega arith) p0 p1 q0 q1
            (omega (arith, h.fg_same, v.fg_in))) in
    subst (Painted _ _ d) (sym (print-append (csi_text (p ∷ q ∷ [])) (b'm' ∷ []) d)) (
      rw step (record {
        fg_now = ap (λ x. x / 8 * 8 + (number p - 30)) h.fg_same;
        bg_now = refl;
        painted =
            ap (λ f. record (d'.con) { color = f / 8 * 8 + (number p - 30) + 16 * (number q - 40) })
              h.fg_same
            ∙ ap
                (λ (s : Console). record s {
                  color = d.ctx.fg / 8 * 8 + (number p - 30) + 16 * (number q - 40);
                })
                h.con_same;
        back = refl;
        row_same = h.row_same;
        col_same = h.col_same;
      }))

-- ESC [ n J erases the part of the screen that mode n selects, and ESC [ n K that part of the row of the
-- cursor: behind the cursor for 0, up to it for 1, all for any other number.
pub erases :
    (p : List ℕ) (d : Display)
    → IsNumeral p
    → number p < 2 ^ 32
    → d.ctx.state ≡ ts_ground
    → OnScreen d.con
    → Erased
        (selected (number p) 0 (cursor d.con) (vga_cols * vga_rows))
        d.con
        (print (csi_text (p ∷ []) ++ (b'J' ∷ [])) d).con
      × Erased
          (selected
            (number p)
            (d.con.row * vga_cols)
            (cursor d.con)
            (d.con.row * vga_cols + vga_cols))
          d.con
          (print (csi_text (p ∷ []) ++ (b'K' ∷ [])) d).con
unfolding csi_dispatch entry print
erases p d is lt g h =
    let d' : Display = print (csi_text (p ∷ [])) d in
    let c = params_lem p [] d (is, _) (omega arith) g in
    let same = c.so_far.con_same in
    let mode : mode_param d'.ctx ≡ number p =
      ground (arith, c.counted, c.so_far.entries 0 (omega arith)) in
    let drawn : (op : ℕ → Console → Console) → op (mode_param d'.ctx) d'.con ≡ op (number p) d.con =
      λ op. ap (λ m. op m d'.con) mode ∙ ap (op (number p)) same in
    let last : (f : ℕ) → (print (csi_text (p ∷ []) ++ (f ∷ [])) d).con ≡ (putc f d').con =
      λ f. ap (λ (x : Display). x.con) (print-append (csi_text (p ∷ [])) (f ∷ []) d) in
    (
      subst (Erased _ d.con)
          (sym (
            last b'J'
            ∙ ap (λ (x : Display). x.con) (putc_final b'J' d' refl c.so_far.in_csi)
            ∙ drawn erase_display))
          (erase_display_lem (number p) d.con h),
      subst (Erased _ d.con)
          (sym (
            last b'K'
            ∙ ap (λ (x : Display). x.con) (putc_final b'K' d' refl c.so_far.in_csi)
            ∙ drawn erase_line))
          (erase_line_lem (number p) d.con h),
    )
