-- ===== src/Console/Sheet.antt =====
-- drivers/gpu.c: the console is a window on the last 25 rows of an endless sheet of paper.
use epona_os.Base.{
  ℕ, zero, suc, ◌+◌, ◌-◌, ◌*◌, ◌/◌, ◌%◌, ◌^◌, ◌≤◌, ◌<◌, bit_and, bit_or, bit_xor, ◌≡◌, refl, sym,
  ap, ◌∙◌, ◌≢◌, ◌↔◌, ◌⊎◌, inl, inr, Bool, true, false, ◌&&◌, ◌||◌, not, Option, none, some, List,
  [], ◌∷◌, ◌++◌, arith, Arr, upd, upd_self, upd_ne, subst, length, length-append, ltb, leb, ◌==◌,
  ==_iff, if◌then◌else◌, Bool-cases, if_elim, extend_down, Option-cases, ltb→lt, &&_split,
  all_below, all_below_sound,
}
use epona_os.Console.{
  Console, vga_cols, vga_rows, fb_cell, fb_update_cursor, fill_cells, copy_up, console_scroll,
  settle, draw, putc, print, clear,
}
use epona_os.Console.Cells.{fill_cells_lem, copy_up_lem}
use epona_os.Console.Bounds.{OnScreen, Safe, putc-Safe}
pub mod Typing

-- The sheet's cells, the row that is at the top of the screen, and the cell that is written next.
pub record Sheet : Type 0 where
  pub paper : Arr
  pub top : ℕ
  pub at : ℕ

-- The window follows the pen.
pub feed : Sheet → Sheet
feed p = if leb ((p.top + vga_rows) * vga_cols) p.at then record p { top = p.top + 1 } else p

-- To write a character in colour `color`.
pub type_char : (color c : ℕ) → Sheet → Sheet
type_char color c p =
    if c == b'\n'
    then feed (record p { at = (p.at / vga_cols + 1) * vga_cols })
    else if c == b'\r'
    then record p { at = p.at / vga_cols * vga_cols }
    else if c == 8
    then (if p.at % vga_cols == 0 then p else record p { at = p.at - 1 })
    else feed (record p { paper = upd p.paper p.at (fb_cell c color); at = p.at + 1 })

pub type_text : ℕ → List ℕ → Sheet → Sheet
type_text color [] p = p
type_text color (c ∷ cs) p = type_text color cs (type_char color c p)

-- The screen is the window: its cells are those of the sheet from row `top` on, the cursor is the pen,
-- and the sheet is blank below the window.
pub record Shows (p : Sheet) (s : Console) : Type 0 where
  pub cells : (j : ℕ) → j < vga_cols * vga_rows → s.vga j ≡ p.paper (p.top * vga_cols + j)
  pub pen : p.at ≡ p.top * vga_cols + (s.row * vga_cols + s.col)
  pub blank : (j : ℕ) → (p.top + vga_rows) * vga_cols ≤ j → p.paper j ≡ fb_cell b' ' s.color
  pub on_screen : OnScreen s

-- No form feed, which clears the screen.
abbrev pub NoFormFeed : List ℕ → Type 0
NoFormFeed [] = Unit
NoFormFeed (c ∷ cs) = (c ≢ 12) × NoFormFeed cs

-- What holds before the end of `gpu_putc`.
pub record Moved (p : Sheet) (s : Console) : Type 0 where
  pub cells : (j : ℕ) → j < vga_cols * vga_rows → s.vga j ≡ p.paper (p.top * vga_cols + j)
  pub pen : p.at ≡ p.top * vga_cols + (s.row * vga_cols + s.col)
  pub blank : (j : ℕ) → (p.top + vga_rows) * vga_cols ≤ j → p.paper j ≡ fb_cell b' ' s.color
  pub row_near : s.row ≤ vga_rows
  pub col_in : s.col < vga_cols

pub settle-Shows : (p : Sheet) (s : Console) → Moved p s → Shows (feed p) (settle s)
unfolding feed settle fb_update_cursor console_scroll
settle-Shows p s m = elim (Bool-cases (leb vga_rows s.row)) [
  | inl over ↦
      let e : leb ((p.top + vga_rows) * vga_cols) p.at ≡ true = ground (arith, m.pen) in
      rw (over, e)
        (record {
          cells = λ j lt. scrolled s.vga (fb_cell b' ' s.color) j refl refl lt;
          pen = ground (arith, m.pen, m.row_near);
          blank = λ j le. m.blank j (omega arith);
          on_screen = record { row_in = omega arith; col_in = m.col_in; synced = omega arith };
        })
  | inr room ↦
      let e : leb ((p.top + vga_rows) * vga_cols) p.at ≡ false = ground (arith, m.pen, m.col_in) in
      rw (room, e)
        (record {
          cells = m.cells;
          pen = m.pen;
          blank = m.blank;
          on_screen = record { row_in = ground arith; col_in = m.col_in; synced = ground arith };
        })
]
  where
    scrolled :
        (mem : Arr) (blank : ℕ) (j : ℕ)
        → mem ≡ s.vga
        → blank ≡ fb_cell b' ' s.color
        → j < vga_cols * vga_rows
        → fill_cells vga_cols 1920 blank (copy_up 1920 0 mem) j
          ≡ p.paper ((p.top + 1) * vga_cols + j)
    scrolled mem blank j em eb lt = elim (Bool-cases (ltb j 1920)) [
      | inl above ↦
          let e : p.top * vga_cols + (j + vga_cols) ≡ (p.top + 1) * vga_cols + j = omega arith in
          ground (
            arith,
            fill_cells_lem vga_cols 1920 blank (copy_up 1920 0 mem) j,
            copy_up_lem 1920 0 mem j,
            m.cells (j + vga_cols),
            ap (λ x. x (j + vga_cols)) em,
            ap p.paper e,
          )
      | inr last ↦ ground (
        arith,
        fill_cells_lem vga_cols 1920 blank (copy_up 1920 0 mem) j,
        m.blank ((p.top + 1) * vga_cols + j),
        eb,
      )
    ]

pub draw-Moved :
    (c : ℕ) (p : Sheet) (s : Console)
    → Shows p s
    → Moved (record p { paper = upd p.paper p.at (fb_cell c s.color); at = p.at + 1 }) (draw c s)
unfolding draw
draw-Moved c p s h = elim (Bool-cases (leb vga_cols (s.col + 1))) [
  | inl e ↦ rw e (record {
    cells = written;
    pen = ground (arith, h.pen, h.on_screen.col_in);
    blank = untouched;
    row_near = omega (arith, h.on_screen.row_in);
    col_in = omega arith;
  })
  | inr e ↦ rw e (record {
    cells = written;
    pen = omega (arith, h.pen);
    blank = untouched;
    row_near = omega (arith, h.on_screen.row_in);
    col_in = ground arith;
  })
]
  where
    written :
        (j : ℕ)
        → j < vga_cols * vga_rows
        → upd s.vga (s.row * vga_cols + s.col) (fb_cell c s.color) j
          ≡ upd p.paper p.at (fb_cell c s.color) (p.top * vga_cols + j)
    written j lt = ground (arith, h.cells j, h.pen)

    untouched :
        (j : ℕ)
        → (p.top + vga_rows) * vga_cols ≤ j
        → upd p.paper p.at (fb_cell c s.color) j ≡ fb_cell b' ' s.color
    untouched j le = ground (arith, h.blank j, h.pen, h.on_screen.row_in, h.on_screen.col_in)

-- A move within the row or to the start of the next.
pub move-Moved :
    (p : Sheet) (s : Console) (row col at : ℕ)
    → Shows p s
    → at ≡ p.top * vga_cols + (row * vga_cols + col)
    → row ≤ vga_rows
    → col < vga_cols
    → Moved (record p { at = at }) (record s { row = row; col = col })
move-Moved p s row col at h e r c = record {
  cells = h.cells;
  pen = e;
  blank = h.blank;
  row_near = r;
  col_in = c;
}

-- A move that does not leave the window does not feed the sheet.
pub settle_within :
    (p : Sheet) (s : Console) (col at : ℕ)
    → Shows p s
    → at ≡ p.top * vga_cols + (s.row * vga_cols + col)
    → col < vga_cols
    → Shows (record p { at = at }) (settle (record s { col = col }))
unfolding feed
settle_within p s col at h e lt =
    let no : leb ((p.top + vga_rows) * vga_cols) at ≡ false = ground (arith, h.on_screen.row_in) in
    rw no at (
      settle-Shows (record p { at = at }) (record s { col = col })
        (move-Moved p s s.row col at h e (omega (arith, h.on_screen.row_in)) lt))
