-- ===== src/Console/Sheet/Typing.antt =====
-- drivers/gpu.c: printing on the screen is typing on the sheet.
use epona_os.Base.{
  ℕ, ◌+◌, ◌-◌, ◌*◌, ◌/◌, ◌%◌, ◌≡◌, refl, ◌∙◌, ◌≢◌, inl, inr, true, false, List, [], ◌∷◌, arith,
  subst, ltb, leb, ◌==◌, if◌then◌else◌, Bool-cases, if_elim,
}
use epona_os.Console.{
  Console, vga_cols, vga_rows, fb_cell, fb_update_cursor, console_scroll, settle, draw, putc, print,
  clear,
}
use epona_os.Console.Cells.{fill_cells_lem}
use epona_os.Console.Sheet.{
  Sheet, type_char, type_text, Shows, NoFormFeed, settle-Shows, draw-Moved, move-Moved,
  settle_within,
}

type_char-Shows :
    (c : ℕ) (p : Sheet) (s : Console)
    → c ≢ 12
    → Shows p s
    → Shows (type_char s.color c p) (putc c s)
unfolding type_char putc
type_char-Shows c p s ne h = elim (Bool-cases (c == b'\n')) [
  | inl e ↦ rw e (
      settle-Shows (record p { at = (p.at / vga_cols + 1) * vga_cols })
        (record s { col = 0; row = s.row + 1 })
        (move-Moved p s (s.row + 1) 0 _ h (omega (arith, h.pen, h.on_screen.col_in))
          (omega (arith, h.on_screen.row_in)) (omega arith)))
  | inr e ↦ elim (Bool-cases (c == b'\r')) [
    | inl e' ↦
        rw (e, e')
          (settle_within p s 0 _ h (omega (arith, h.pen, h.on_screen.col_in)) (omega arith))
    | inr e' ↦ elim (Bool-cases (c == 8)) [
      | inl e'' ↦ rw (e, e', e'') (back p s h)
      | inr e'' ↦
          let e3 : (c == 12) ≡ false = ground (arith, ne) in
          rw (e, e', e'', e3) (settle-Shows _ _ (draw-Moved c p s h))
    ]
  ]
]
  where
    back :
        (p : Sheet) (s : Console)
        → Shows p s
        → Shows
            (if p.at % vga_cols == 0 then p else record p { at = p.at - 1 })
            (settle (if ltb 0 s.col then record s { col = s.col - 1 } else s))
    back p s h = elim (Bool-cases (ltb 0 s.col)) [
      | inl more ↦
          let e : (p.at % vga_cols == 0) ≡ false = ground (arith, h.pen, h.on_screen.col_in) in
          rw (more, e)
            (settle_within p s (s.col - 1) _ h (ground (arith, h.pen))
              (omega (arith, h.on_screen.col_in)))
      | inr first ↦
          let e : (p.at % vga_cols == 0) ≡ true = ground (arith, h.pen) in
          rw (first, e) (settle_within p s s.col p.at h h.pen h.on_screen.col_in)
    ]

settle-color : (s : Console) → (settle s).color ≡ s.color
unfolding settle fb_update_cursor console_scroll
settle-color s =
    if_elim (λ (t : Console). t.color ≡ s.color) (leb vga_rows s.row) (λ e. refl) (λ e. refl)

-- No character but the form feed changes the colour.
pub putc-color : (c : ℕ) (s : Console) → c ≢ 12 → (putc c s).color ≡ s.color
unfolding putc draw
putc-color c s ne =
    if_elim (λ (t : Console). t.color ≡ s.color) (c == b'\n') (λ e. settle-color _)
      (λ e.
        if_elim (λ (t : Console). t.color ≡ s.color) (c == b'\r') (λ e. settle-color _)
          (λ e.
            if_elim (λ (t : Console). t.color ≡ s.color) (c == 8)
              (λ e.
                settle-color _
                ∙ if_elim (λ (t : Console). t.color ≡ s.color) (ltb 0 s.col) (λ e. refl)
                    (λ e. refl))
              (λ e.
                let e3 : (c == 12) ≡ false = ground (arith, ne) in
                rw e3 (
                  settle-color (draw c s)
                  ∙ if_elim (λ (t : Console). t.color ≡ s.color) (leb vga_cols (s.col + 1))
                      (λ e. refl) (λ e. refl)))))

-- When the screen shows the last 25 rows of a sheet, and a text without form feeds is printed, the
-- screen shows the last 25 rows of the sheet with the text typed on it, and the cursor stands at the
-- sheet's pen.
pub print_refines :
    (cs : List ℕ) (p : Sheet) (s : Console)
    → NoFormFeed cs
    → Shows p s
    → Shows (type_text s.color cs p) (print cs s)
unfolding print type_text
print_refines [] p s ok h = h
print_refines (c ∷ cs) p s (ne, ok) h =
    subst (λ k. Shows (type_text k cs (type_char s.color c p)) (print cs (putc c s)))
      (putc-color c s ne)
      (print_refines cs (type_char s.color c p) (putc c s) ok (type_char-Shows c p s ne h))

-- After `gpu_clear` the screen shows an empty sheet.
pub clear-Shows :
    (fg bg : ℕ) (s : Console)
    → Shows
        (record { paper = λ _. fb_cell b' ' (clear fg bg s).color; top = 0; at = 0 })
        (clear fg bg s)
unfolding clear fb_update_cursor
clear-Shows fg bg s = record {
  cells = λ j lt.
      ground (
        arith,
        fill_cells_lem (vga_cols * vga_rows) 0 (fb_cell b' ' (clear fg bg s).color) s.vga j,
      );
  pen = refl;
  blank = λ j le. refl;
  on_screen = record { row_in = omega arith; col_in = omega arith; synced = omega arith };
}
