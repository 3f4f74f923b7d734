-- ===== src/Console.antt =====
-- drivers/gpu.c: the console in VGA text mode (`g_fb_enabled == 0`), 80 columns by 25 rows. Drawing on
-- a linear frame buffer is not modelled. `vga` is the memory from 0xB8000 on, in 16-bit cells.
use epona_os.Base.{
  ℕ, zero, suc, ◌+◌, ◌-◌, ◌*◌, ◌/◌, ◌%◌, ◌^◌, ◌≤◌, ◌<◌, bit_and, bit_or, bit_xor, ◌≡◌, refl, sym,
  ap, ◌∙◌, ◌≢◌, ◌↔◌, ◌⊎◌, inl, inr, Bool, true, false, ◌&&◌, ◌||◌, not, Option, none, some, List,
  [], ◌∷◌, ◌++◌, arith, Arr, upd, upd_self, upd_ne, subst, length, length-append, ltb, leb, ◌==◌,
  ==_iff, if◌then◌else◌, Bool-cases, if_elim, extend_down, Option-cases, ltb→lt, &&_split,
  all_below, all_below_sound,
}
pub mod Cells
pub mod Bounds
pub mod Cursor
pub mod Sheet
pub mod Erase
mod Examples

abbrev pub vga_cols : ℕ
vga_cols = 80

abbrev pub vga_rows : ℕ
vga_rows = 25

pub record Console : Type 0 where
  pub vga : Arr
  pub row : ℕ
  pub col : ℕ
  pub color : ℕ
  -- the cursor position in the registers 0x0E and 0x0F of the display controller
  pub hw_cursor : ℕ

pub fb_cell : (c color : ℕ) → ℕ
fb_cell c color = bit_or (c % 2 ^ 8) (color * 2 ^ 8) % 2 ^ 16

pub fb_update_cursor : Console → Console
fb_update_cursor s = record s { hw_cursor = (s.row * vga_cols + s.col) % 2 ^ 16 }

pub set_color : (fg bg : ℕ) → Console → Console
set_color fg bg s = record s { color = bit_or fg (bg * 2 ^ 4) % 2 ^ 8 }

-- The loops write from cell `i` on and recur on the rounds left.
pub fill_cells : (n i cell : ℕ) → Arr → Arr
fill_cells zero i cell mem = mem
fill_cells (suc n) i cell mem = fill_cells n (i + 1) cell (upd mem i cell)

pub copy_up : (n i : ℕ) → Arr → Arr
copy_up zero i mem = mem
copy_up (suc n) i mem = copy_up n (i + 1) (upd mem i (mem (i + vga_cols)))

pub clear : (fg bg : ℕ) → Console → Console
clear fg bg s =
    let color = bit_or fg (bg * 2 ^ 4) % 2 ^ 8 in
    fb_update_cursor (record s {
      row = 0;
      col = 0;
      color = color;
      vga = fill_cells (vga_cols * vga_rows) 0 (fb_cell b' ' color) s.vga;
    })

-- `gpu_put_at`
pub put_at : (row col c fg bg : ℕ) → Console → Console
put_at row col c fg bg s = if leb vga_rows row || leb vga_cols col then s else record s {
  vga = upd s.vga (row * vga_cols + col) (fb_cell c (bit_or fg (bg * 2 ^ 4) % 2 ^ 8));
}

-- `gpu_write_at`; the string is its characters up to the end of string. The column is a byte.
pub write_at : (row col : ℕ) → List ℕ → (fg bg : ℕ) → Console → Console
write_at row col [] fg bg s = s
write_at row col (c ∷ cs) fg bg s =
    let rest : Console = write_at row (col + 1) cs fg bg (put_at row (col % 2 ^ 8) c fg bg s) in
    if ltb col vga_cols then rest else s

pub console_scroll : Console → Console
console_scroll s = record s {
  vga =
      fill_cells vga_cols ((vga_rows - 1) * vga_cols) (fb_cell b' ' s.color)
        (copy_up ((vga_rows - 1) * vga_cols) 0 s.vga);
  row = vga_rows - 1;
}

-- The end of `gpu_putc`.
pub settle : Console → Console
settle s = fb_update_cursor (if leb vga_rows s.row then console_scroll s else s)

pub draw : ℕ → Console → Console
draw c s =
    let drawn : Console = record s {
      vga = upd s.vga (s.row * vga_cols + s.col) (fb_cell c s.color);
    } in
    if leb vga_cols (s.col + 1)
    then record drawn { col = 0; row = s.row + 1 }
    else record drawn { col = s.col + 1 }

pub putc : ℕ → Console → Console
putc c s =
    if c == b'\n'
    then settle (record s { col = 0; row = s.row + 1 })
    else if c == b'\r'
    then settle (record s { col = 0 })
    else if c == 8
    then settle (if ltb 0 s.col then record s { col = s.col - 1 } else s)
    else if c == 12
    then clear 0x0f 0x00 s
    else settle (draw c s)

unfoldable pub print : List ℕ → Console → Console
print [] s = s
print (c ∷ cs) s = print cs (putc c s)

-- `row` and `col` are 16-bit words.
pub set_cursor : (row col : ℕ) → Console → Console
set_cursor row col s = fb_update_cursor (record s {
  row = if leb vga_rows row then vga_rows - 1 else row;
  col = if leb vga_cols col then vga_cols - 1 else col;
})

-- The loop over the rows of `gpu_erase_display`, from row `r` on.
pub erase_rows : (n r mode : ℕ) → Console → Console
erase_rows zero r mode s = s
erase_rows (suc n) r mode s =
    let c0 = if mode == 0 && r == s.row then s.col else 0 in
    let c1 = if mode == 1 && r == s.row then s.col + 1 else vga_cols in
    erase_rows n (r + 1) mode
      (record s { vga = fill_cells (c1 - c0) (r * vga_cols + c0) (fb_cell b' ' s.color) s.vga })

pub erase_display : ℕ → Console → Console
erase_display mode s =
    let r0 = if mode == 0 then s.row else 0 in
    let r1 = if mode == 1 then s.row + 1 else vga_rows in erase_rows (r1 - r0) r0 mode s

pub erase_line : ℕ → Console → Console
erase_line mode s =
    let c0 = if mode == 0 then s.col else 0 in
    let c1 = if mode == 1 then s.col + 1 else vga_cols in
    record s { vga = fill_cells (c1 - c0) (s.row * vga_cols + c0) (fb_cell b' ' s.color) s.vga }
