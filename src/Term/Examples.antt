-- ===== src/Term/Examples.antt =====
-- kernel/term.c: runs of the interpreter, and the theorems at them.
use epona_os.Base.{ℕ, ◌≡◌, refl, false, List, [], ◌∷◌, ◌++◌, arith}
use epona_os.Console.{Console}
use epona_os.Console.Bounds.{OnScreen}
use epona_os.Term.{
  ts_ground, Display, print, putc, putc_in, csi_putc, csi_dispatch, params_reset, param_digit, esc,
  Default,
}
use epona_os.Term.Bounds.{IsValid}
use epona_os.Term.Safety.{Sound, print-Sound}
use epona_os.Term.Plain.{NoEsc}
use epona_os.Term.Params.{IsNumeral, number, number_from}
use epona_os.Term.Sequence.{Complete, values, csi_text, params_lem}

abbrev screen : Console
screen = record { vga = λ _. 0xf20; row = 10; col = 20; color = 15; hw_cursor = 820 }

abbrev start : Display
start = record {
  ctx = record {
    state = ts_ground;
    params = λ _. 0;
    nparams = 0;
    param_active = false;
    fg = 15;
    bg = 0;
    saved_row = 0;
    saved_col = 0;
  };
  con = screen;
}

screen-OnScreen : OnScreen screen
screen-OnScreen = record { row_in = omega arith; col_in = omega arith; synced = omega arith }

start-IsValid : IsValid start.ctx
start-IsValid = record {
  counted = omega arith;
  started = λ e. refl;
  fg_in = omega arith;
  bg_in = omega arith;
}

-- `12` and `5`
abbrev twelve : List ℕ
twelve = b'1' ∷ b'2' ∷ []

abbrev five : List ℕ
five = b'5' ∷ []

twelve-IsNumeral : IsNumeral twelve
twelve-IsNumeral = ((omega arith, omega arith), ((omega arith, omega arith), _))

five-IsNumeral : IsNumeral five
five-IsNumeral = ((omega arith, omega arith), _)

number-twelve : number twelve ≡ 12
unfolding number number_from
number-twelve = refl

number-five : number five ≡ 5
unfolding number number_from
number-five = refl

-- 20 parameters, an unknown final byte, an operating system command and a clear screen.
abbrev noise : List ℕ
noise = csi_text (twelve ∷ five ∷ []) ++ (b';' ∷ b';' ∷ 300 ∷ b'q' ∷ esc ∷ b']' ∷ 7 ∷ 12 ∷ [])

print-Sound_example : Sound start (print noise start)
print-Sound_example = print-Sound noise start start-IsValid screen-OnScreen

abbrev hello : List ℕ
hello = b'h' ∷ b'i' ∷ b'\n' ∷ []

hello-NoEsc : NoEsc hello
hello-NoEsc = (omega arith, (omega arith, (omega arith, _)))

params_lem_example :
    Complete (values (twelve ∷ five ∷ [])) start (print (csi_text (twelve ∷ five ∷ [])) start)
params_lem_example =
    params_lem twelve (five ∷ []) start (twelve-IsNumeral, (five-IsNumeral, _)) (omega arith) refl

-- `31` and `44`
abbrev thirty_one : List ℕ
thirty_one = b'3' ∷ b'1' ∷ []

abbrev forty_four : List ℕ
forty_four = b'4' ∷ b'4' ∷ []

number-colors : (number thirty_one ≡ 31) × (number forty_four ≡ 44)
unfolding number number_from
number-colors = (refl, refl)

abbrev fresh : Default
fresh = record { display = start; default_init = false }

-- A digit behind ESC [ becomes the first parameter; an unknown sequence is left at its final byte.
sequence_runs :
    ((print (esc ∷ b'[' ∷ b'7' ∷ []) start).ctx.params 0 ≡ 7)
    × ((print (esc ∷ b'[' ∷ b'7' ∷ b'q' ∷ []) start).ctx.state ≡ ts_ground)
unfolding print putc putc_in csi_putc params_reset param_digit csi_dispatch
sequence_runs = (refl, refl)
