-- ===== src/Term/Plain.antt =====
-- kernel/term.c: text without escape sequences, and operating system commands.
use epona_os.Base.{
  ℕ, ◌≡◌, refl, sym, ap, ◌∙◌, ◌≢◌, true, false, ◌||◌, List, [], ◌∷◌, ◌++◌, arith, subst, ◌==◌,
}
use epona_os.Console
use epona_os.Console.{Console}
use epona_os.Console.Sheet.{Sheet, type_text, Shows, NoFormFeed}
use epona_os.Console.Sheet.Typing.{print_refines}
use epona_os.Term.{
  ts_ground, ts_osc, Display, in_state, putc_in, putc, print, esc, Default, default_ctx, term_print,
}

-- `p` holds of every element.
abbrev pub AllOf : (ℕ → Type 0) → List ℕ → Type 0
AllOf p [] = Unit
AllOf p (c ∷ cs) = p c × AllOf p cs

abbrev pub NoEsc : List ℕ → Type 0
NoEsc cs = AllOf (λ c. c ≢ esc) cs

pub print-append : (xs ys : List ℕ) (d : Display) → print (xs ++ ys) d ≡ print ys (print xs d)
unfolding print
print-append [] ys d = refl
print-append (x ∷ xs) ys d = print-append xs ys (putc x d)

-- Outside of an escape sequence, text without the character ESC goes to the console as it is, and the
-- context does not change.
pub print_plain :
    (cs : List ℕ) (d : Display)
    → NoEsc cs
    → d.ctx.state ≡ ts_ground
    → print cs d ≡ record d { con = Console.print cs d.con }
unfolding print putc putc_in Console.print
print_plain [] d ok g = refl
print_plain (c ∷ cs) d (ne, ok) g =
    let e : (c == esc) ≡ false = ground (arith, ne) in
    let step : putc c d ≡ record d { con = Console.putc c d.con } = rw (g, e) refl in
    ap (λ x. print cs x) step ∙ print_plain cs (record d { con = Console.putc c d.con }) ok g

-- The bytes of an operating system command, none of which ends it, change nothing.
osc_body :
    (cs : List ℕ) (d : Display)
    → AllOf (λ c. (c ≢ 0x07) × (c ≢ esc)) cs
    → d.ctx.state ≡ ts_osc
    → print cs d ≡ d
unfolding print putc putc_in
osc_body [] d ok g = refl
osc_body (c ∷ cs) d ((n7, ne), ok) g =
    let e : (c == 0x07 || c == esc) ≡ false = ground (arith, n7, ne) in
    let step : putc c d ≡ d = rw (g, e) refl in ap (λ x. print cs x) step ∙ osc_body cs d ok g

-- ESC ] text, and how it ends.
abbrev pub osc_text : List ℕ → List ℕ → List ℕ
osc_text cs end = esc ∷ b']' ∷ (cs ++ end)

swallowed :
    (cs end : List ℕ) (d : Display)
    → AllOf (λ c. (c ≢ 0x07) × (c ≢ esc)) cs
    → d.ctx.state ≡ ts_ground
    → print (osc_text cs end) d ≡ print end (in_state ts_osc d)
unfolding print putc putc_in
swallowed cs end d ok g =
    let opened : putc b']' (putc esc d) ≡ in_state ts_osc d = rw g refl in
    ap (λ x. print (cs ++ end) x) opened
    ∙ print-append cs end (in_state ts_osc d)
    ∙ ap (λ x. print end x) (osc_body cs (in_state ts_osc d) ok refl)

-- An operating system command is swallowed whole when BEL ends it; when the string terminator ESC \ ends
-- it, its last byte \ is printed on the console.
pub osc_lem :
    (cs : List ℕ) (d : Display)
    → AllOf (λ c. (c ≢ 0x07) × (c ≢ esc)) cs
    → d.ctx.state ≡ ts_ground
    → (print (osc_text cs (0x07 ∷ [])) d ≡ d)
      × (print (osc_text cs (esc ∷ b'\\' ∷ [])) d ≡ record d { con = Console.putc b'\\' d.con })
unfolding print putc putc_in
osc_lem cs d ok g =
    let back : in_state ts_ground d ≡ d = ap (λ st. in_state st d) (sym g) in
    (
      swallowed cs (0x07 ∷ []) d ok g ∙ back,
      swallowed cs (esc ∷ b'\\' ∷ []) d ok g
          ∙ ap (λ x. let r : Display = x in record r { con = Console.putc b'\\' d.con }) back,
    )

-- What a program prints in plain text is typed on the sheet that the screen shows.
pub print_plain-Shows :
    (cs : List ℕ) (p : Sheet) (d : Display)
    → NoEsc cs
    → NoFormFeed cs
    → d.ctx.state ≡ ts_ground
    → Shows p d.con
    → Shows (type_text d.con.color cs p) (print cs d).con
print_plain-Shows cs p d ne nf g h =
    subst (λ (x : Display). Shows (type_text d.con.color cs p) x.con) (sym (print_plain cs d ne g))
      (print_refines cs p d.con nf h)

-- To print two texts on the kernel's console one after the other is to print them as one, whether or not the
-- context has been initialised before: an escape sequence may be cut anywhere between the calls.
pub term_print-append :
    (xs ys : List ℕ) (g : Default) → term_print ys (term_print xs g) ≡ term_print (xs ++ ys) g
unfolding term_print default_ctx
term_print-append xs ys g =
    ap (λ d. let r : Display = d in record { display = r; default_init = true })
      (sym (print-append xs ys (default_ctx g)))
