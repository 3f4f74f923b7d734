-- ===== src/Console/Examples.antt =====
-- drivers/gpu.c: runs of the console, and the theorems at them.
use epona_os.Base.{ℕ, ◌≡◌, refl, List, [], ◌∷◌, arith}
use epona_os.Console.{
  Console, fb_cell, fb_update_cursor, console_scroll, settle, draw, putc, print, write_at, put_at,
}
use epona_os.Console.Bounds.{OnScreen}
use epona_os.Console.Sheet.{Sheet, type_text, Shows, NoFormFeed}
use epona_os.Console.Sheet.Typing.{print_refines}

-- The last cell of the screen is next.
abbrev full : Console
full = record { vga = λ _. 0xf20; row = 24; col = 79; color = 15; hw_cursor = 1999 }

full-OnScreen : OnScreen full
full-OnScreen = record { row_in = omega arith; col_in = omega arith; synced = omega arith }

abbrev sheet : Sheet
sheet = record { paper = λ _. 0xf20; top = 3; at = 2239 }

full-Shows : Shows sheet full
unfolding fb_cell
full-Shows = record {
  cells = λ j lt. refl;
  pen = refl;
  blank = λ j le. refl;
  on_screen = full-OnScreen;
}

-- `A`, a new line by itself, a new line, `B`, a carriage return and a backspace.
abbrev text : List ℕ
text = b'A' ∷ b'\n' ∷ b'B' ∷ b'C' ∷ 8 ∷ b'D' ∷ b'\r' ∷ []

text-NoFormFeed : NoFormFeed text
text-NoFormFeed = (
  omega arith,
  (omega arith, (omega arith, (omega arith, (omega arith, (omega arith, (omega arith, _)))))),
)

print_refines_example : Shows (type_text 15 text sheet) (print text full)
print_refines_example = print_refines text sheet full text-NoFormFeed full-Shows

print_runs : (print (b'A' ∷ b'B' ∷ []) (record full { row = 0; col = 78 })).row ≡ 1
unfolding print putc draw settle fb_update_cursor console_scroll
print_runs = refl

write_at_runs : (write_at 24 78 (b'A' ∷ b'B' ∷ b'C' ∷ []) 7 1 full).vga 1999 ≡ 0x1742
unfolding write_at put_at fb_cell
write_at_runs = refl
