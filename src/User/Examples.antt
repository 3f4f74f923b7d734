-- ===== src/User/Examples.antt =====
-- user/stdlib.c: runs, and the theorems at them.
use epona_os.Base.{◌-◌, ◌^◌, ◌≡◌, refl, some, List, [], ◌∷◌, arith, Arr, codes}
use epona_os.User.{
  atoi, atoi_signed, atoi_digits, itoa, itox, text_at, text_fuel, finish_text, put_unsigned,
  put_digits, reverse_str, strlen, strlen_loop, swap_loop,
}
use epona_os.User.Parse.{atoi-itoa}
use epona_os.User.Format.{
  Piece, literal, int, text, percent, ptr, vprintf, format_of, args_of, output_of, vprintf_lem,
}

abbrev zero_mem : Arr
zero_mem _ = 0

itoa_runs : text_at text_fuel 100 (itoa (2 ^ 32 - 307) 100 zero_mem) ≡ codes "-307"
unfolding text_at itoa finish_text put_unsigned put_digits reverse_str strlen strlen_loop swap_loop
itoa_runs = refl

itox_runs : text_at text_fuel 0 (itox 0xe9a0 0 zero_mem) ≡ codes "e9a0"
unfolding text_at itox finish_text put_unsigned put_digits reverse_str strlen strlen_loop swap_loop
itox_runs = refl

atoi_runs : atoi (codes "  +42 apples") ≡ 42
unfolding atoi atoi_signed atoi_digits
atoi_runs = refl

atoi-itoa_example : atoi (text_at text_fuel 100 (itoa (2 ^ 31) 100 zero_mem)) ≡ 2 ^ 31
atoi-itoa_example = atoi-itoa (2 ^ 31) 100 zero_mem (omega arith)

abbrev pieces : List Piece
pieces =
    literal b'['
    ∷ int (2 ^ 32 - 307)
    ∷ literal b' '
    ∷ text (codes "files")
    ∷ percent
    ∷ ptr 0xB8000
    ∷ []

format_runs : format_of pieces ≡ codes "[%d %s%%%p"
format_runs = refl

output_runs : output_of pieces ≡ codes "[-307 files%0xb8000"
output_runs = refl

vprintf_lem_example : vprintf (format_of pieces) (args_of pieces) ≡ some (output_of pieces)
vprintf_lem_example = vprintf_lem pieces (omega arith, (omega arith, _))
