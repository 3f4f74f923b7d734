-- ===== src/Memory/Strings.antt =====
-- lib/string.c: comparing, copying and splitting texts in memory. The loops recur on fuel where they have no bound, and
-- give `none` when it is used up.
use epona_os.Base.{
  ℕ, zero, suc, ◌+◌, Bool, false, ◌&&◌, ◌||◌, not, Option, none, some, List, [], ◌∷◌, Arr, upd,
  ◌==◌, if◌then◌else◌,
}
use epona_os.Memory.{byte_difference}

pub strcmp : (fuel a b : ℕ) → Arr → Option ℕ
strcmp zero a b mem = none
strcmp (suc fuel) a b mem =
    let rest = strcmp fuel (a + 1) (b + 1) mem in
    if not (mem a == 0) && mem a == mem b then rest else some (byte_difference (mem a) (mem b))

pub strcpy : (fuel dst src : ℕ) → Arr → Option Arr
strcpy zero dst src mem = none
strcpy (suc fuel) dst src mem =
    let copied = upd mem dst (mem src) in
    let rest = strcpy fuel (dst + 1) (src + 1) copied in if mem src == 0 then some copied else rest

-- The two loops of `strncpy`, for `n` more places.
pub fill_zero : (n dst : ℕ) → Arr → Arr
fill_zero zero dst mem = mem
fill_zero (suc n) dst mem = fill_zero n (dst + 1) (upd mem dst 0)

pub strncpy : (n dst src : ℕ) → Arr → Arr
strncpy zero dst src mem = mem
strncpy (suc n) dst src mem =
    let rest = strncpy n (dst + 1) (src + 1) (upd mem dst (mem src)) in
    let filled = fill_zero (suc n) dst mem in if mem src == 0 then filled else rest

-- The loop over the delimiters.
unfoldable pub is_separator : (c : ℕ) (delim : List ℕ) → Bool
is_separator c [] = false
is_separator c (d ∷ delim) = c == d || is_separator c delim

-- The first loop of `strtok`: the address of the first character that is no delimiter, or of the end.
unfoldable pub skip_separators : (fuel at : ℕ) (delim : List ℕ) → Arr → Option ℕ
skip_separators zero at delim mem = none
skip_separators (suc fuel) at delim mem =
    let rest = skip_separators fuel (at + 1) delim mem in
    if not (mem at == 0) && is_separator (mem at) delim then rest else some at

-- The second one: the address of the next delimiter, or of the end.
unfoldable pub find_separator : (fuel at : ℕ) (delim : List ℕ) → Arr → Option ℕ
find_separator zero at delim mem = none
find_separator (suc fuel) at delim mem =
    let rest = find_separator fuel (at + 1) delim mem in
    if not (mem at == 0) && not (is_separator (mem at) delim) then rest else some at

-- The end of a token at `at`: `g_saved`, and the memory.
abbrev pub cut : (at : ℕ) → Arr → ℕ × Arr
cut at mem = if mem at == 0 then (0, mem) else (at + 1, upd mem at 0)

-- `strtok`: the token, `g_saved` and the memory; 0 is NULL.
unfoldable pub strtok : (fuel str : ℕ) (delim : List ℕ) (g_saved : ℕ) → Arr → Option (ℕ × ℕ × Arr)
strtok fuel str delim g_saved mem =
    let saved = if str == 0 then g_saved else str in
    let split : ℕ → Option (ℕ × ℕ × Arr) = λ start. elim (find_separator fuel start delim mem) [
      | none ↦ none
      | some end ↦ some (start, (cut end mem).0, (cut end mem).1)
    ] in
    if saved == 0 then some (0, saved, mem) else elim (skip_separators fuel saved delim mem) [
      | none ↦ none
      | some start ↦ if mem start == 0 then some (0, 0, mem) else split start
    ]
