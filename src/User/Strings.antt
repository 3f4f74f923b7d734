-- ===== src/User/Strings.antt =====
-- user/stdlib.c: the string functions. A text that is read is its characters before the end of string.
use epona_os.Base.{
  ℕ, zero, suc, ◌+◌, ◌-◌, ◌%◌, ◌^◌, ◌<◌, ◌≡◌, refl, ap, ◌∙◌, ◌≢◌, ◌↔◌, inl, inr, Bool, true, false,
  not, Option, none, some, List, [], ◌∷◌, ◌++◌, arith, Arr, upd, length, length-append, ltb, ◌==◌,
  if◌then◌else◌, Bool-cases,
}
use epona_os.Ring.{drop}

-- `x - y` of two characters as the 32-bit pattern of an int.
abbrev pub difference : (x y : ℕ) → ℕ
difference x y = (x + 2 ^ 32 - y) % 2 ^ 32

pub strcmp : (a b : List ℕ) → ℕ
strcmp [] [] = 0
strcmp [] (y ∷ b) = difference 0 y
strcmp (x ∷ a) [] = difference x 0
strcmp (x ∷ a) (y ∷ b) = let rest = strcmp a b in if x == y then rest else difference x y

pub strncmp : (a b : List ℕ) (n : ℕ) → ℕ
strncmp a b zero = 0
strncmp [] b (suc n) = 0
strncmp (x ∷ a) [] (suc n) = 0
strncmp (x ∷ a) (y ∷ b) (suc n) =
    let rest = strncmp a b n in if not (x == y) then difference x y else rest

pub strcpy : (dst : ℕ) → List ℕ → Arr → Arr
strcpy dst [] mem = upd mem dst 0
strcpy dst (c ∷ src) mem = strcpy (dst + 1) src (upd mem dst c)

pub strncpy : (dst : ℕ) → List ℕ → (n : ℕ) → Arr → Arr
strncpy dst src zero mem = mem
strncpy dst [] (suc n) mem = strncpy (dst + 1) [] n (upd mem dst 0)
strncpy dst (c ∷ src) (suc n) mem = strncpy (dst + 1) src n (upd mem dst c)

-- The end of string that `strcat` looks for; the text in front is shorter than `fuel`.
pub find_end : (fuel dst : ℕ) → Arr → ℕ
find_end zero dst mem = dst
find_end (suc fuel) dst mem =
    let rest = find_end fuel (dst + 1) mem in if mem dst == 0 then dst else rest

pub strcat : (fuel dst : ℕ) → List ℕ → Arr → Arr
strcat fuel dst src mem = strcpy (find_end fuel dst mem) src mem

-- `strchr`: the offset of the character.
pub strchr : List ℕ → (c : ℕ) → Option ℕ
strchr [] c = if c == 0 then some 0 else none
strchr (x ∷ s) c =
    let rest = strchr s c in
    if x == c % 2 ^ 8 then some 0 else elim rest [ none ↦ none | some n ↦ some (n + 1) ]

unfoldable pub starts_with : (s prefix : List ℕ) → Bool
starts_with s [] = true
starts_with [] (p ∷ prefix) = false
starts_with (x ∷ s) (p ∷ prefix) =
    let rest = starts_with s prefix in if not (x == p) then false else rest

unfoldable pub ends_with : (s suffix : List ℕ) → Bool
ends_with s suffix =
    if ltb (length s) (length suffix)
    then false
    else strcmp (drop (length s - length suffix) s) suffix == 0

strcmp_self : (a : List ℕ) → strcmp a a ≡ 0
unfolding strcmp
strcmp_self [] = refl
strcmp_self (x ∷ a) = ground (arith, strcmp_self a)

-- Characters as they stand in memory, before the end of string.
abbrev pub AllChars : List ℕ → Type 0
AllChars [] = Unit
AllChars (c ∷ cs) = (c ≢ 0) × (c < 256) × AllChars cs

-- `strcmp` returns 0 on equal texts only.
pub strcmp_zero : (a b : List ℕ) → AllChars a → AllChars b → strcmp a b ≡ 0 → a ≡ b
unfolding strcmp
strcmp_zero [] [] p q e = refl
strcmp_zero [] (y ∷ b) p (n, lt, q) e = absurd (omega arith)
strcmp_zero (x ∷ a) [] (n, lt, p) q e = absurd (omega arith)
strcmp_zero (x ∷ a) (y ∷ b) (n, lt, p) (n', lt', q) e = elim (Bool-cases (x == y)) [
  | inl same ↦
      let rest = strcmp_zero a b p q (rw same at e) in
      let head : x ≡ y = ground arith in cc (head, rest)
  | inr other ↦ let d : difference x y ≡ 0 = rw other at e in absurd (ground arith)
]

drop-append : (p t : List ℕ) (n : ℕ) → n ≡ length p → drop n (p ++ t) ≡ t
drop-append [] t zero e = refl
drop-append [] t (suc n) e = absurd (omega arith)
drop-append (x ∷ p) t zero e = absurd (omega arith)
drop-append (x ∷ p) t (suc n) e = drop-append p t n (omega arith)

split_at : (s : List ℕ) (n : ℕ) → (p : List ℕ) × (s ≡ p ++ drop n s)
split_at s zero = ([], refl)
split_at [] (suc n) = ([], refl)
split_at (x ∷ s) (suc n) = let r = split_at s n in (x ∷ r.0, ap (λ l. x ∷ l) r.1)

drop-AllChars : (s : List ℕ) (n : ℕ) → AllChars s → AllChars (drop n s)
drop-AllChars s zero a = a
drop-AllChars [] (suc n) a = a
drop-AllChars (x ∷ s) (suc n) (_, _, a) = drop-AllChars s n a

-- `ends_with` says whether the text is some other one with the suffix behind it.
pub ends_with_iff :
    (s suffix : List ℕ)
    → AllChars s
    → AllChars suffix
    → (ends_with s suffix ≡ true) ↔ ((p : List ℕ) × (s ≡ p ++ suffix))
unfolding ends_with
ends_with_iff s suffix a b =
    let n : ℕ = length s - length suffix in
    (
      λ e. elim (Bool-cases (ltb (length s) (length suffix))) [
        | inl short ↦ absurd (let f : false ≡ true = rw short at e in cc (f))
        | inr fits ↦
            let t : (strcmp (drop n s) suffix == 0) ≡ true = rw fits at e in
            let same = strcmp_zero (drop n s) suffix (drop-AllChars s n a) b (ground arith) in
            let r = split_at s n in (r.0, r.1 ∙ ap (λ l. r.0 ++ l) same)
      ],
      λ (p, e).
          let len : length s ≡ length p + length suffix =
            ap (λ l. length l) e ∙ length-append p suffix in
          let fits : ltb (length s) (length suffix) ≡ false = ground (arith, len) in
          let rest : drop n s ≡ suffix =
            ap (drop n) e ∙ drop-append p suffix n (omega (arith, len)) in
          let zero_d : strcmp (drop n s) suffix ≡ 0 =
            ap (λ l. strcmp l suffix) rest ∙ strcmp_self suffix in
          rw fits (ground (arith, zero_d)),
    )
