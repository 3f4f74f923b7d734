-- ===== src/Console/Erase.antt =====
-- drivers/gpu.c: which cells gpu_erase_display and gpu_erase_line blank.
use epona_os.Base.{
  ℕ, zero, suc, ◌+◌, ◌-◌, ◌*◌, ◌≤◌, ◌<◌, ◌≡◌, refl, ap, ◌∙◌, Bool, false, ◌&&◌, ◌||◌, arith, ltb,
  leb, ◌==◌, if◌then◌else◌,
}
use epona_os.Console.{
  Console, vga_cols, vga_rows, fb_cell, fill_cells, erase_rows, erase_display, erase_line,
}
use epona_os.Console.Cells.{within, fill_cells_lem}
use epona_os.Console.Bounds.{OnScreen, Safe}

-- `t` is `s` with the cells that `p` picks blank, in the current colour.
pub record Erased (p : ℕ → Bool) (s t : Console) : Type 0 where
  pub cells : (j : ℕ) → t.vga j ≡ (if p j then fb_cell b' ' s.color else s.vga j)
  pub row_same : t.row ≡ s.row
  pub col_same : t.col ≡ s.col
  pub color_same : t.color ≡ s.color
  pub hw_same : t.hw_cursor ≡ s.hw_cursor

-- The number of the cell at the cursor.
abbrev pub cursor : Console → ℕ
cursor s = s.row * vga_cols + s.col

-- Cell `j` is in the part of the cells from `first` to `stop` that an erase mode selects: from the
-- cursor on, up to the cursor, or all.
abbrev pub selected : (mode first at stop j : ℕ) → Bool
selected mode first at stop j =
    if mode == 0
    then leb at j && ltb j stop
    else if mode == 1
    then leb first j && leb j at
    else leb first j && ltb j stop

Erased-trans :
    (p q r : ℕ → Bool) (a b c : Console)
    → Erased p a b
    → Erased q b c
    → ((j : ℕ) → r j ≡ (p j || q j))
    → Erased r a c
Erased-trans p q r a b c h k e = record {
  cells = λ j. ground (arith, h.cells j, k.cells j, e j, ap (λ x. fb_cell b' ' x) h.color_same);
  row_same = k.row_same ∙ h.row_same;
  col_same = k.col_same ∙ h.col_same;
  color_same = k.color_same ∙ h.color_same;
  hw_same = k.hw_same ∙ h.hw_same;
}

Erased-ext : (p q : ℕ → Bool) (s t : Console) → Erased p s t → ((j : ℕ) → q j ≡ p j) → Erased q s t
Erased-ext p q s t h e = record {
  cells = λ j. ground (arith, h.cells j, e j);
  row_same = h.row_same;
  col_same = h.col_same;
  color_same = h.color_same;
  hw_same = h.hw_same;
}

fill-Erased :
    (n i : ℕ) (s : Console)
    → Erased (within n i) s (record s { vga = fill_cells n i (fb_cell b' ' s.color) s.vga })
fill-Erased n i s = record {
  cells = λ j. fill_cells_lem n i (fb_cell b' ' s.color) s.vga j;
  row_same = refl;
  col_same = refl;
  color_same = refl;
  hw_same = refl;
}

-- The first cell and the number of cells of the part of row `r` that is erased.
abbrev left : (mode r row col : ℕ) → ℕ
left mode r row col = if mode == 0 && r == row then col else 0

abbrev right : (mode r row col : ℕ) → ℕ
right mode r row col = if mode == 1 && r == row then col + 1 else vga_cols

-- The cells that the rows from `r` to `r + n` lose.
erase_rows_lem :
    (n r mode row col : ℕ) (s : Console)
    → s.row ≡ row
    → s.col ≡ col
    → col < vga_cols
    → (if mode == 0 then row else 0) ≤ r
    → r + n ≡ (if mode == 1 then row + 1 else vga_rows)
    → Erased
        (λ j.
          leb (r * vga_cols + left mode r row col) j
          && ltb j (if mode == 1 then row * vga_cols + col + 1 else vga_cols * vga_rows)
          && ltb 0 n)
        s
        (erase_rows n r mode s)
unfolding erase_rows
erase_rows_lem zero r mode row col s er ec lt lo hi = record {
  cells = λ j. ground arith;
  row_same = refl;
  col_same = refl;
  color_same = refl;
  hw_same = refl;
}
erase_rows_lem (suc n) r mode row col s er ec lt lo hi =
    let c0 : ℕ = left mode r s.row s.col in
    let c1 : ℕ = right mode r s.row s.col in
    let t : Console = record s {
      vga = fill_cells (c1 - c0) (r * vga_cols + c0) (fb_cell b' ' s.color) s.vga;
    } in
    Erased-trans _ _ _ s t _ (fill-Erased (c1 - c0) (r * vga_cols + c0) s)
      (erase_rows_lem n (r + 1) mode row col t er ec lt (omega arith) (omega arith))
      (λ j. ground (arith, er, ec))

-- `gpu_erase_display` with the cursor on the screen: mode 0 blanks the cells from the cursor to the
-- end of the screen, mode 1 those from the start up to and with the cursor, any other mode all; no
-- other cell, and neither the cursor nor the colour, is changed.
pub erase_display_lem :
    (mode : ℕ) (s : Console)
    → OnScreen s
    → Erased (selected mode 0 (cursor s) (vga_cols * vga_rows)) s (erase_display mode s)
unfolding erase_display
erase_display_lem mode s h =
    let r0 : ℕ = if mode == 0 then s.row else 0 in
    let r1 : ℕ = if mode == 1 then s.row + 1 else vga_rows in
    Erased-ext _ _ s _
      (erase_rows_lem (r1 - r0) r0 mode s.row s.col s refl refl h.col_in (omega arith)
        (ground (arith, h.row_in)))
      (λ j. ground (arith, h.row_in, h.col_in))

-- `gpu_erase_line` does the same within the row of the cursor.
pub erase_line_lem :
    (mode : ℕ) (s : Console)
    → OnScreen s
    → Erased
        (selected mode (s.row * vga_cols) (cursor s) (s.row * vga_cols + vga_cols))
        s
        (erase_line mode s)
unfolding erase_line
erase_line_lem mode s h =
    Erased-ext _ _ s _
      (fill-Erased ((if mode == 1 then s.col + 1 else vga_cols) - (if mode == 0 then s.col else 0))
        (s.row * vga_cols + (if mode == 0 then s.col else 0)) s)
      (λ j. ground (arith, h.row_in, h.col_in))

Erased-Safe :
    (p : ℕ → Bool) (s t : Console)
    → OnScreen s
    → ((j : ℕ) → vga_cols * vga_rows ≤ j → p j ≡ false)
    → Erased p s t
    → Safe s t
Erased-Safe p s t h out e = record {
  on_screen = record {
    row_in = omega (arith, h.row_in, e.row_same);
    col_in = omega (arith, h.col_in, e.col_same);
    synced = omega (arith, h.synced, e.row_same, e.col_same, e.hw_same);
  };
  outside = λ j le. ground (arith, e.cells j, out j le);
}

pub erase_display-Safe : (mode : ℕ) (s : Console) → OnScreen s → Safe s (erase_display mode s)
erase_display-Safe mode s h =
    Erased-Safe _ s _ h (λ j le. ground (arith, h.row_in, h.col_in)) (erase_display_lem mode s h)

pub erase_line-Safe : (mode : ℕ) (s : Console) → OnScreen s → Safe s (erase_line mode s)
erase_line-Safe mode s h =
    Erased-Safe _ s _ h (λ j le. ground (arith, h.row_in, h.col_in)) (erase_line_lem mode s h)
