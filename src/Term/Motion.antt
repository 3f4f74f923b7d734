-- ===== src/Term/Motion.antt =====
-- kernel/term.c: the control sequences that move the cursor by a distance, and that save and restore it.
use epona_os.Base.{
  ℕ, ◌+◌, ◌-◌, ◌%◌, ◌^◌, ◌≤◌, ◌≡◌, refl, sym, ap, ◌∙◌, true, List, [], ◌∷◌, ◌++◌, arith, subst, leb,
  ◌==◌, if◌then◌else◌,
}
use Prim.Native.Nat.{min}
use epona_os.Console
use epona_os.Console.{Console, vga_cols, vga_rows, set_cursor}
use epona_os.Console.Bounds.{OnScreen}
use epona_os.Console.Cursor.{at_cursor}
use epona_os.Term.{ts_ground, Display, csi_dispatch, putc, print, esc, between, param_or}
use epona_os.Term.Plain.{print-append, NoEsc, print_plain}
use epona_os.Term.Params.{IsNumeral, number, entry, opened}
use epona_os.Term.Sequence.{Complete, csi_text, params_lem, values}
use epona_os.Term.Cursor.{MovedTo, after_move, param_lem, putc_final}

-- The number of a parameter that says how far to move: 0 counts as 1.
abbrev pub distance : List ℕ → ℕ
distance p = if number p == 0 then 1 else number p

-- A sequence with one number, whose final byte sets the cursor to the row `x` and the column `y`, which
-- come to `row` and `col`.
relative :
    (f row col : ℕ) (x y : Display → ℕ) (p : List ℕ) (d : Display)
    → IsNumeral p
    → d.ctx.state ≡ ts_ground
    → between 0x40 0x7e f ≡ true
    → ((e : Display) → csi_dispatch f e ≡ record e { con = set_cursor (x e) (y e) e.con })
    → ((e : Display)
        → e.con ≡ d.con
        → Complete (values (p ∷ [])) d e
        → (min (x e) (vga_rows - 1) ≡ row) × (min (y e) (vga_cols - 1) ≡ col))
    → MovedTo row col d (print (csi_text (p ∷ []) ++ (f ∷ [])) d)
unfolding print
relative f row col x y p d is g e step ends =
    let d' : Display = print (csi_text (p ∷ [])) d in
    let c = params_lem p [] d (is, _) (omega arith) g in
    let (er, ec) = ends d' c.so_far.con_same c in
    subst (MovedTo row col d) (sym (print-append (csi_text (p ∷ [])) (f ∷ []) d)) (
      subst (λ r. MovedTo r col d (putc f d')) er
        (subst (λ k. MovedTo (min (x d') (vga_rows - 1)) k d (putc f d')) ec
          (after_move f (x d') (y d') (values (p ∷ [])) d d' e c.so_far (step d'))))

-- ESC [ n followed by A, B, C or D, with n up to 65000, moves the cursor by n, 1 for 0, up, down, right or
-- left, and stops at the edge of the screen. Nothing else changes.
pub cursor_moves :
    (p : List ℕ) (d : Display)
    → IsNumeral p
    → number p ≤ 65000
    → d.ctx.state ≡ ts_ground
    → OnScreen d.con
    → MovedTo (d.con.row - distance p) d.con.col d (print (csi_text (p ∷ []) ++ (b'A' ∷ [])) d)
      × MovedTo
          (min (d.con.row + distance p) (vga_rows - 1))
          d.con.col
          d
          (print (csi_text (p ∷ []) ++ (b'B' ∷ [])) d)
      × MovedTo d.con.row
          (min (d.con.col + distance p) (vga_cols - 1))
          d
          (print (csi_text (p ∷ []) ++ (b'C' ∷ [])) d)
      × MovedTo d.con.row (d.con.col - distance p) d (print (csi_text (p ∷ []) ++ (b'D' ∷ [])) d)
unfolding csi_dispatch entry
cursor_moves p d is le g h =
    let n : (e : Display) → Complete (values (p ∷ [])) d e → param_or 0 1 e.ctx ≡ distance p =
      λ e c. ground (arith, param_lem 0 (values (p ∷ [])) d e c (omega arith) (omega arith)) in
    let row : (e : Display) → e.con ≡ d.con → e.con.row ≡ d.con.row =
      λ e q. ap (λ (k : Console). k.row) q in
    let col : (e : Display) → e.con ≡ d.con → e.con.col ≡ d.con.col =
      λ e q. ap (λ (k : Console). k.col) q in
    (
      relative b'A' _ _
          (λ e.
            (if leb (param_or 0 1 e.ctx) (e.con.row % 2 ^ 16)
              then e.con.row % 2 ^ 16 - param_or 0 1 e.ctx
              else 0)
            % 2 ^ 16)
          (λ e. e.con.col % 2 ^ 16) p d is g refl (λ e. refl)
          (λ e q c. (ground (arith, n e c, row e q, h.row_in), ground (arith, col e q, h.col_in))),
      relative b'B' _ _ (λ e. (e.con.row % 2 ^ 16 + param_or 0 1 e.ctx) % 2 ^ 16)
          (λ e. e.con.col % 2 ^ 16) p d is g refl (λ e. refl)
          (λ e q c. (ground (arith, n e c, row e q, h.row_in), ground (arith, col e q, h.col_in))),
      relative b'C' _ _ (λ e. e.con.row % 2 ^ 16)
          (λ e. (e.con.col % 2 ^ 16 + param_or 0 1 e.ctx) % 2 ^ 16) p d is g refl (λ e. refl)
          (λ e q c. (ground (arith, row e q, h.row_in), ground (arith, n e c, col e q, h.col_in))),
      relative b'D' _ _ (λ e. e.con.row % 2 ^ 16)
          (λ e.
            (if leb (param_or 0 1 e.ctx) (e.con.col % 2 ^ 16)
              then e.con.col % 2 ^ 16 - param_or 0 1 e.ctx
              else 0)
            % 2 ^ 16)
          p d is g refl (λ e. refl)
          (λ e q c. (ground (arith, row e q, h.row_in), ground (arith, n e c, col e q, h.col_in))),
    )

record Saved (d d' : Display) : Type 0 where
  con_same : d'.con ≡ d.con
  back : d'.ctx.state ≡ ts_ground
  row : d'.ctx.saved_row ≡ d.con.row % 2 ^ 16
  col : d'.ctx.saved_col ≡ d.con.col % 2 ^ 16

saves : (d : Display) → d.ctx.state ≡ ts_ground → Saved d (print (esc ∷ b'[' ∷ b's' ∷ []) d)
unfolding print csi_dispatch
saves d g =
    let d' : Display = print (esc ∷ b'[' ∷ []) d in
    let h = (opened d g).so_far in
    rw (putc_final b's' d' refl h.in_csi) (record {
      con_same = h.con_same;
      back = refl;
      row = ap (λ (k : Console). k.row % 2 ^ 16) h.con_same;
      col = ap (λ (k : Console). k.col % 2 ^ 16) h.con_same;
    })

restores :
    (d : Display)
    → d.ctx.state ≡ ts_ground
    → MovedTo
        (min d.ctx.saved_row (vga_rows - 1))
        (min d.ctx.saved_col (vga_cols - 1))
        d
        (print (esc ∷ b'[' ∷ b'u' ∷ []) d)
unfolding print csi_dispatch
restores d g =
    let d' : Display = print (esc ∷ b'[' ∷ []) d in
    let h = (opened d g).so_far in
    after_move b'u' d.ctx.saved_row d.ctx.saved_col [] d d' refl h (
      ap (λ r. record d' { con = set_cursor r d'.ctx.saved_col d'.con }) h.row_same
      ∙ ap (λ c. record d' { con = set_cursor d.ctx.saved_row c d'.con }) h.col_same)

-- ESC [ s, any text without ESC, and ESC [ u: the text is printed, and the cursor stands where it was before
-- it, even when the text has scrolled the screen.
pub save-restore :
    (cs : List ℕ) (d : Display)
    → NoEsc cs
    → d.ctx.state ≡ ts_ground
    → OnScreen d.con
    → (print ((esc ∷ b'[' ∷ b's' ∷ []) ++ (cs ++ (esc ∷ b'[' ∷ b'u' ∷ []))) d).con
      ≡ at_cursor d.con.row d.con.col (Console.print cs d.con)
save-restore cs d ok g h =
    let d1 : Display = print (esc ∷ b'[' ∷ b's' ∷ []) d in
    let d2 : Display = record d1 { con = Console.print cs d1.con } in
    let sv = saves d g in
    let split : print ((esc ∷ b'[' ∷ b's' ∷ []) ++ (cs ++ (esc ∷ b'[' ∷ b'u' ∷ []))) d
        ≡ print (esc ∷ b'[' ∷ b'u' ∷ []) d2 =
      print-append (esc ∷ b'[' ∷ b's' ∷ []) (cs ++ (esc ∷ b'[' ∷ b'u' ∷ [])) d
      ∙ print-append cs (esc ∷ b'[' ∷ b'u' ∷ []) d1
      ∙ ap (print (esc ∷ b'[' ∷ b'u' ∷ [])) (print_plain cs d1 ok sv.back) in
    let r : min d1.ctx.saved_row (vga_rows - 1) ≡ d.con.row = omega (arith, sv.row, h.row_in) in
    let c : min d1.ctx.saved_col (vga_cols - 1) ≡ d.con.col = omega (arith, sv.col, h.col_in) in
    ap (λ (x : Display). x.con) split
    ∙ (restores d2 sv.back).moved
    ∙ ap (λ x. at_cursor x (min d1.ctx.saved_col (vga_cols - 1)) (Console.print cs d1.con)) r
    ∙ ap (λ x. at_cursor d.con.row x (Console.print cs d1.con)) c
    ∙ ap (λ x. at_cursor d.con.row d.con.col (Console.print cs x)) sv.con_same
