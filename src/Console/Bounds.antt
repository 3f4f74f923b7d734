-- ===== src/Console/Bounds.antt =====
-- drivers/gpu.c: every operation of the text console keeps the cursor on the screen and writes no
-- memory but the 2000 cells of the screen.
use epona_os.Base.{
  ℕ, ◌+◌, ◌-◌, ◌*◌, ◌≤◌, ◌<◌, ◌≡◌, refl, ◌∙◌, inl, inr, List, [], ◌∷◌, arith, upd, upd_ne, ltb, leb,
  ◌==◌, if◌then◌else◌, Bool-cases, if_elim,
}
use epona_os.Console.{
  Console, vga_cols, vga_rows, fb_cell, fb_update_cursor, set_color, copy_up, clear, console_scroll,
  settle, draw, putc, print, set_cursor,
}
use epona_os.Console.Cells.{fill_cells_lem, copy_up_lem}

pub record OnScreen (s : Console) : Type 0 where
  pub row_in : s.row < vga_rows
  pub col_in : s.col < vga_cols
  pub synced : s.hw_cursor ≡ s.row * vga_cols + s.col

abbrev pub SameOutside : Console → Console → Type 0
SameOutside s s' = (i : ℕ) → vga_cols * vga_rows ≤ i → s'.vga i ≡ s.vga i

-- What an operation from `s` to `s'` keeps.
pub record Safe (s s' : Console) : Type 0 where
  pub on_screen : OnScreen s'
  pub outside : SameOutside s s'

pub Safe-trans : (a b c : Console) → Safe a b → Safe b c → Safe a c
Safe-trans a b c h k = record {
  on_screen = k.on_screen;
  outside = λ i le. k.outside i le ∙ h.outside i le;
}

pub Safe-refl : (s : Console) → OnScreen s → Safe s s
Safe-refl s h = record { on_screen = h; outside = λ i le. refl }

-- The end of `gpu_putc`, from a row that is one too far at most.
settle-Safe :
    (s t : Console) → t.row ≤ vga_rows → t.col < vga_cols → SameOutside s t → Safe s (settle t)
unfolding settle fb_update_cursor console_scroll
settle-Safe s t r c same = elim (Bool-cases (leb vga_rows t.row)) [
  | inl over ↦ rw over (record {
    on_screen = record { row_in = omega arith; col_in = c; synced = omega arith };
    outside = λ i le. ground (
      arith,
      same i le,
      copy_up_lem ((vga_rows - 1) * vga_cols) 0 t.vga i,
      fill_cells_lem vga_cols ((vga_rows - 1) * vga_cols) (fb_cell b' ' t.color)
          (copy_up ((vga_rows - 1) * vga_cols) 0 t.vga) i,
    );
  })
  | inr room ↦ rw room (record {
    on_screen = record { row_in = ground arith; col_in = c; synced = ground arith };
    outside = same;
  })
]

pub clear-Safe : (fg bg : ℕ) (s : Console) → Safe s (clear fg bg s)
unfolding clear fb_update_cursor
clear-Safe fg bg s = record {
  on_screen = record { row_in = omega arith; col_in = omega arith; synced = omega arith };
  outside = λ i le.
      ground (
        arith,
        fill_cells_lem (vga_cols * vga_rows) 0 (fb_cell b' ' (clear fg bg s).color) s.vga i,
      );
}

draw-Safe : (c : ℕ) (s : Console) → OnScreen s → Safe s (settle (draw c s))
unfolding draw
draw-Safe c s h =
    let written : (i : ℕ)
        → vga_cols * vga_rows ≤ i
        → upd s.vga (s.row * vga_cols + s.col) (fb_cell c s.color) i ≡ s.vga i =
      λ i le.
        upd_ne s.vga (s.row * vga_cols + s.col) i (fb_cell c s.color)
          (omega (arith, h.row_in, h.col_in)) in
    elim (Bool-cases (leb vga_cols (s.col + 1))) [
      | inl e ↦ rw e (settle-Safe s _ (omega (arith, h.row_in)) (omega arith) written)
      | inr e ↦ rw e (settle-Safe s _ (omega (arith, h.row_in)) (ground arith) written)
    ]

-- `gpu_putc`, on any character.
pub putc-Safe : (c : ℕ) (s : Console) → OnScreen s → Safe s (putc c s)
unfolding putc
putc-Safe c s h =
    if_elim (λ t. Safe s t) (c == b'\n')
      (λ e.
        settle-Safe s (record s { col = 0; row = s.row + 1 }) (omega (arith, h.row_in))
          (omega arith) (λ i le. refl))
      (λ e.
        if_elim (λ t. Safe s t) (c == b'\r')
          (λ e.
            settle-Safe s (record s { col = 0 }) (omega (arith, h.row_in)) (omega arith)
              (λ i le. refl))
          (λ e.
            if_elim (λ t. Safe s t) (c == 8) (λ e. back)
              (λ e.
                if_elim (λ t. Safe s t) (c == 12) (λ e. clear-Safe 0x0f 0x00 s)
                  (λ e. draw-Safe c s h))))
  where
    back : Safe s (settle (if ltb 0 s.col then record s { col = s.col - 1 } else s))
    back = elim (Bool-cases (ltb 0 s.col)) [
      | inl e ↦ rw e (
          settle-Safe s (record s { col = s.col - 1 }) (omega (arith, h.row_in))
            (omega (arith, h.col_in)) (λ i le. refl))
      | inr e ↦ rw e (settle-Safe s s (omega (arith, h.row_in)) h.col_in (λ i le. refl))
    ]

-- `gpu_print`: the cursor stays on the screen, and nothing outside its 2000 cells is written.
pub print-Safe : (cs : List ℕ) (s : Console) → OnScreen s → Safe s (print cs s)
unfolding print
print-Safe [] s h = Safe-refl s h
print-Safe (c ∷ cs) s h =
    let one = putc-Safe c s h in
    Safe-trans s (putc c s) (print cs (putc c s)) one (print-Safe cs (putc c s) one.on_screen)

-- `gpu_set_cursor` clamps any position to the screen.
pub set_cursor-Safe : (row col : ℕ) (s : Console) → Safe s (set_cursor row col s)
unfolding set_cursor fb_update_cursor
set_cursor-Safe row col s = record {
  on_screen = record { row_in = ground arith; col_in = ground arith; synced = ground arith };
  outside = λ i le. refl;
}

pub set_color-Safe : (fg bg : ℕ) (s : Console) → OnScreen s → Safe s (set_color fg bg s)
unfolding set_color
set_color-Safe fg bg s h = record {
  on_screen = record { row_in = h.row_in; col_in = h.col_in; synced = h.synced };
  outside = λ i le. refl;
}
