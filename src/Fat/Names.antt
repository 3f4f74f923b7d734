-- ===== src/Fat/Names.antt =====
-- fs/fat.c: names of files as eight and three characters. A text is its characters before the end of string; the two
-- arrays of a directory entry are lists of eight and three.
use epona_os.Base.{
  ℕ, zero, suc, ◌+◌, ◌-◌, ◌≤◌, ◌<◌, ◌≡◌, refl, sym, ap, ◌∙◌, Bool, true, false, ◌&&◌, ◌||◌, not,
  Option, none, some, List, [], ◌∷◌, ◌++◌, arith, length, length-append, ltb, leb, ◌==◌,
  if◌then◌else◌,
}
use mathlib.Core.List.{append_assoc, append-nil}

-- `c - 'a' + 'A'` for a small letter, and back.
abbrev pub upper : ℕ → ℕ
upper c = if leb b'a' c && leb c b'z' then c - 32 else c

abbrev pub lower : ℕ → ℕ
lower c = if leb b'A' c && leb c b'Z' then c + 32 else c

abbrev pub allowed : ℕ → Bool
allowed c = leb b'A' c && leb c b'Z' || leb b'0' c && leb c b'9' || c == b'_' || c == b'-'

-- The loop of `fat_name_to_83`: `n` and `e` are what is in the two arrays so far, `ext` says whether the dot has come.
unfoldable pub to_83_loop : List ℕ → (n e : List ℕ) (ext : Bool) → Option (List ℕ × List ℕ)
to_83_loop [] n e ext = if ltb 0 (length n) then some (n, e) else none
to_83_loop (c ∷ cs) n e ext =
    let behind_dot = to_83_loop cs n e true in
    let in_name = to_83_loop cs (n ++ (upper c ∷ [])) e ext in
    let in_ext = to_83_loop cs n (e ++ (upper c ∷ [])) ext in
    if c == b'.'
    then (if ext then none else behind_dot)
    else if not (allowed (upper c))
    then none
    else if not ext
    then (if leb 8 (length n) then none else in_name)
    else (if leb 3 (length e) then none else in_ext)

-- An array of `room` characters, with spaces behind the text.
unfoldable pub padded : (room : ℕ) → List ℕ → List ℕ
padded zero cs = []
padded (suc room) [] = b' ' ∷ padded room []
padded (suc room) (c ∷ cs) = c ∷ padded room cs

-- `fat_name_to_83`
unfoldable pub name_to_83 : List ℕ → Option (List ℕ × List ℕ)
name_to_83 name = elim (to_83_loop name [] [] false) [
  | none ↦ none
  | some (n, e) ↦ some (padded 8 n, padded 3 e)
]

-- The characters of an array of `room` up to a space or the end of string.
unfoldable pub until_blank : (room : ℕ) → List ℕ → List ℕ
until_blank zero cs = []
until_blank (suc room) [] = []
until_blank (suc room) (c ∷ cs) =
    let rest = until_blank room cs in if c == 0 || c == b' ' then [] else c ∷ rest

unfoldable pub lowered : List ℕ → List ℕ
lowered [] = []
lowered (c ∷ cs) = lower c ∷ lowered cs

-- `fat_trim_name`
unfoldable pub trim_name : (name ext : List ℕ) → List ℕ
trim_name name ext =
    let tail = until_blank 3 ext in
    elim tail [
      | [] ↦ lowered (until_blank 8 name)
      | ◌∷◌ c cs ↦ lowered (until_blank 8 name ++ (b'.' ∷ c ∷ cs))
    ]

-- A small letter, a digit, `_` or `-`.
abbrev pub is_plain : ℕ → Bool
is_plain c = leb b'a' c && leb c b'z' || leb b'0' c && leb c b'9' || c == b'_' || c == b'-'

abbrev pub AllNameChars : List ℕ → Type 0
AllNameChars [] = Unit
AllNameChars (c ∷ cs) = (is_plain c ≡ true) × AllNameChars cs

uppered : List ℕ → List ℕ
uppered [] = []
uppered (c ∷ cs) = upper c ∷ uppered cs

-- What comes in front of the dot.
name_part :
    (base rest n e : List ℕ)
    → AllNameChars base
    → length n + length base ≤ 8
    → to_83_loop (base ++ rest) n e false ≡ to_83_loop rest (n ++ uppered base) e false
unfolding to_83_loop uppered
name_part [] rest n e a fits = ap (λ n. to_83_loop rest n e false) (sym (append-nil n))
name_part (c ∷ base) rest n e (p, a) fits =
    let no_dot : (c == b'.') ≡ false = ground (arith, p) in
    let good : not (allowed (upper c)) ≡ false = ground (arith, p) in
    let room : leb 8 (length n) ≡ false = ground (arith, fits) in
    let more : length (n ++ (upper c ∷ [])) + length base ≤ 8 =
      omega (arith, fits, length-append n (upper c ∷ [])) in
    rw (no_dot, good, room)
      (name_part base rest (n ++ (upper c ∷ [])) e a more
        ∙ ap (λ n. to_83_loop rest n e false) (append_assoc n (upper c ∷ []) (uppered base)))

-- What comes behind it.
ext_part :
    (ext n e : List ℕ)
    → AllNameChars ext
    → length e + length ext ≤ 3
    → to_83_loop ext n e true ≡ to_83_loop [] n (e ++ uppered ext) true
unfolding to_83_loop uppered
ext_part [] n e a fits = ap (λ e. to_83_loop [] n e true) (sym (append-nil e))
ext_part (c ∷ ext) n e (p, a) fits =
    let no_dot : (c == b'.') ≡ false = ground (arith, p) in
    let good : not (allowed (upper c)) ≡ false = ground (arith, p) in
    let room : leb 3 (length e) ≡ false = ground (arith, fits) in
    let more : length (e ++ (upper c ∷ [])) + length ext ≤ 3 =
      omega (arith, fits, length-append e (upper c ∷ [])) in
    rw (no_dot, good, room)
      (ext_part ext n (e ++ (upper c ∷ [])) a more
        ∙ ap (λ e. to_83_loop [] n e true) (append_assoc e (upper c ∷ []) (uppered ext)))

until_blank-padded :
    (room : ℕ) (cs : List ℕ)
    → AllNameChars cs
    → length cs ≤ room
    → until_blank room (padded room (uppered cs)) ≡ uppered cs
unfolding until_blank padded uppered
until_blank-padded zero [] a fits = refl
until_blank-padded zero (c ∷ cs) a fits = absurd (omega arith)
until_blank-padded (suc room) [] a fits = refl
until_blank-padded (suc room) (c ∷ cs) (p, a) fits =
    let shown : (upper c == 0 || upper c == b' ') ≡ false = ground (arith, p) in
    rw shown (ap (λ l. upper c ∷ l) (until_blank-padded room cs a (omega arith)))

lowered-uppered : (cs : List ℕ) → AllNameChars cs → lowered (uppered cs) ≡ cs
unfolding lowered uppered
lowered-uppered [] a = refl
lowered-uppered (c ∷ cs) (p, a) =
    let back : lower (upper c) ≡ c = ground (arith, p) in cc (back, lowered-uppered cs a)

length-uppered : (cs : List ℕ) → length (uppered cs) ≡ length cs
unfolding uppered
length-uppered [] = refl
length-uppered (c ∷ cs) = ap suc (length-uppered cs)

-- A name as it stands in a path.
abbrev pub file_name : (base ext : List ℕ) → List ℕ
file_name base [] = base
file_name base (c ∷ ext) = base ++ (b'.' ∷ c ∷ ext)

done_lem :
    (base e : List ℕ) (ext : Bool)
    → 0 < length base
    → to_83_loop [] (uppered base) e ext ≡ some (uppered base, e)
unfolding to_83_loop
done_lem base e ext pos =
    let some_there : ltb 0 (length (uppered base)) ≡ true =
      ground (arith, length-uppered base, pos) in
    rw some_there refl

to_83_loop_lem :
    (base ext : List ℕ)
    → AllNameChars base
    → AllNameChars ext
    → 0 < length base
    → length base ≤ 8
    → length ext ≤ 3
    → to_83_loop (file_name base ext) [] [] false ≡ some (uppered base, uppered ext)
unfolding uppered to_83_loop
to_83_loop_lem base [] a b pos fits fits' =
    ap (λ l. to_83_loop l [] [] false) (sym (append-nil base))
    ∙ name_part base [] [] [] a (omega arith)
    ∙ done_lem base [] false pos
to_83_loop_lem base (c ∷ ext) a b pos fits fits' =
    name_part base (b'.' ∷ c ∷ ext) [] [] a (omega arith)
    ∙ ext_part (c ∷ ext) (uppered base) [] b (omega (arith, fits'))
    ∙ done_lem base (uppered (c ∷ ext)) true pos

lowered-append : (xs ys : List ℕ) → lowered (xs ++ ys) ≡ lowered xs ++ lowered ys
unfolding lowered
lowered-append [] ys = refl
lowered-append (x ∷ xs) ys = ap (λ l. lower x ∷ l) (lowered-append xs ys)

name_to_83_lem :
    (base ext : List ℕ)
    → AllNameChars base
    → AllNameChars ext
    → 0 < length base
    → length base ≤ 8
    → length ext ≤ 3
    → name_to_83 (file_name base ext) ≡ some (padded 8 (uppered base), padded 3 (uppered ext))
unfolding name_to_83
name_to_83_lem base ext a b pos fits fits' =
    rw (to_83_loop_lem base ext a b pos fits fits', name_to_83) refl

trim_name_lem :
    (base ext : List ℕ)
    → AllNameChars base
    → AllNameChars ext
    → length base ≤ 8
    → length ext ≤ 3
    → trim_name (padded 8 (uppered base)) (padded 3 (uppered ext)) ≡ file_name base ext
unfolding trim_name uppered lowered
trim_name_lem base [] a b fits fits' =
    let blank : until_blank 3 (padded 3 (uppered [])) ≡ [] = until_blank-padded 3 [] b fits' in
    ap
      (λ (t : List ℕ). elim t [
        | [] ↦ lowered (until_blank 8 (padded 8 (uppered base)))
        | ◌∷◌ d ds ↦ lowered (until_blank 8 (padded 8 (uppered base)) ++ (b'.' ∷ d ∷ ds))
      ])
      blank
    ∙ ap lowered (until_blank-padded 8 base a fits)
    ∙ lowered-uppered base a
trim_name_lem base (c ∷ ext) a b fits fits' =
    let tail : until_blank 3 (padded 3 (uppered (c ∷ ext))) ≡ uppered (c ∷ ext) =
      until_blank-padded 3 (c ∷ ext) b fits' in
    ap
      (λ (t : List ℕ). elim t [
        | [] ↦ lowered (until_blank 8 (padded 8 (uppered base)))
        | ◌∷◌ d ds ↦ lowered (until_blank 8 (padded 8 (uppered base)) ++ (b'.' ∷ d ∷ ds))
      ])
      tail
    ∙ ap (λ l. lowered (l ++ (b'.' ∷ uppered (c ∷ ext)))) (until_blank-padded 8 base a fits)
    ∙ lowered-append (uppered base) (b'.' ∷ uppered (c ∷ ext))
    ∙ ap (λ l. l ++ lowered (b'.' ∷ uppered (c ∷ ext))) (lowered-uppered base a)
    ∙ ap (λ l. base ++ (b'.' ∷ l)) (lowered-uppered (c ∷ ext) b)

-- A name of one to eight small letters, digits, `_` and `-`, without a dot or with a dot and one to three more of these
-- behind it, is accepted by `fat_name_to_83`, and `fat_trim_name` makes the same name of the two arrays.
pub trim_name-name_to_83 :
    (base ext : List ℕ)
    → AllNameChars base
    → AllNameChars ext
    → 0 < length base
    → length base ≤ 8
    → length ext ≤ 3
    → (n : List ℕ) × (e : List ℕ) × (name_to_83 (file_name base ext) ≡ some (n, e))
      × (trim_name n e ≡ file_name base ext)
trim_name-name_to_83 base ext a b pos fits fits' = (
  padded 8 (uppered base),
  padded 3 (uppered ext),
  name_to_83_lem base ext a b pos fits fits',
  trim_name_lem base ext a b fits fits',
)
