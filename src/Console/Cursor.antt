-- ===== src/Console/Cursor.antt =====
-- drivers/gpu.c: where gpu_set_cursor puts the cursor.
use epona_os.Base.{
  ℕ, ◌+◌, ◌-◌, ◌*◌, ◌%◌, ◌^◌, ◌<◌, bit_or, ◌≡◌, refl, ap, ◌∙◌, true, arith, leb, ◌==◌, ==_iff,
  if◌then◌else◌, all_below, all_below_sound,
}
use Prim.Native.Nat.{min}
use epona_os.Console.{Console, vga_cols, vga_rows, set_color, set_cursor, fb_update_cursor}

-- The console with the cursor at a place.
abbrev pub at_cursor : (row col : ℕ) → Console → Console
at_cursor row col s = record s { row = row; col = col; hw_cursor = row * vga_cols + col }

-- `gpu_set_cursor` puts the cursor at the place, or at the last row or column when it is beyond the screen.
pub set_cursor_lem :
    (row col : ℕ) (s : Console)
    → set_cursor row col s ≡ at_cursor (min row (vga_rows - 1)) (min col (vga_cols - 1)) s
unfolding set_cursor fb_update_cursor
set_cursor_lem row col s =
    let r : ℕ = if leb vga_rows row then vga_rows - 1 else row in
    let c : ℕ = if leb vga_cols col then vga_cols - 1 else col in
    let er : r ≡ min row (vga_rows - 1) = ground arith in
    let ec : c ≡ min col (vga_cols - 1) = ground arith in
    let eh : (r * vga_cols + c) % 2 ^ 16
        ≡ min row (vga_rows - 1) * vga_cols + min col (vga_cols - 1) =
      ground arith in
    ap (λ h. record s { row = r; col = c; hw_cursor = h }) eh
    ∙ ap
        (λ x. record s {
          row = x;
          col = c;
          hw_cursor = min row (vga_rows - 1) * vga_cols + min col (vga_cols - 1);
        })
        er
    ∙ ap
        (λ x. record s {
          row = min row (vga_rows - 1);
          col = x;
          hw_cursor = min row (vga_rows - 1) * vga_cols + min col (vga_cols - 1);
        })
        ec

color_table :
    all_below 16 (λ f. all_below 16 (λ b. bit_or f (b * 2 ^ 4) % 2 ^ 8 == f + 16 * b)) ≡ true
unfolding all_below
color_table = refl

-- `gpu_set_color` puts the foreground into the low and the background into the high four bits.
pub set_color_lem :
    (fg bg : ℕ) (s : Console)
    → fg < 16
    → bg < 16
    → set_color fg bg s ≡ record s { color = fg + 16 * bg }
unfolding set_color
set_color_lem fg bg s f b =
    ap (λ c. record s { color = c })
      ((==_iff _ _).0 (all_below_sound 16 _ bg (all_below_sound 16 _ fg color_table f) b))
