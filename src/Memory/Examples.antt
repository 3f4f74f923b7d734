-- ===== src/Memory/Examples.antt =====
-- lib/string.c: runs of the functions, and the theorems at them.
use epona_os.Base.{
  ℕ, zero, suc, ◌+◌, ◌-◌, ◌^◌, ◌≡◌, refl, ◌&&◌, none, some, List, [], ◌∷◌, arith, Arr, leb, ◌==◌,
  if◌then◌else◌, codes, write_bytes,
}
use epona_os.Memory.Strings.{is_separator, skip_separators, find_separator, strtok}
use epona_os.Memory.{
  memset_loop, memset, copy_forward, copy_backward, memcpy, memmove, memcmp_loop, memcmp,
  strncmp_loop, strncmp, strlen_loop, strlen,
}
use epona_os.Memory.Copy.{memmove_lem}
use epona_os.Memory.Compare.{Bytes}

-- The strings `abc` at 10 and `abd` at 20, and zero elsewhere.
abbrev memory : Arr
memory i =
    if leb 10 i && leb i 12
    then i + 87
    else if leb 20 i && leb i 21
    then i + 77
    else if i == 22
    then 100
    else 0

memory-Bytes : Bytes memory
memory-Bytes i = ground arith

-- The move to the right overlaps: `aabc`.
memmove_runs :
    (memmove 11 10 3 memory 11 ≡ 97)
    × (memmove 11 10 3 memory 13 ≡ 99)
    × (memcpy 11 10 3 memory 13 ≡ 97)
unfolding memmove memcpy copy_forward copy_backward
memmove_runs = (refl, refl, refl)

memset_runs : memset 5 0x141 3 memory 7 ≡ 0x41
unfolding memset memset_loop
memset_runs = refl

compare_runs :
    (memcmp 10 20 2 memory ≡ 0)
    × (memcmp 10 20 3 memory ≡ 2 ^ 32 - 1)
    × (strncmp 13 23 5 memory ≡ 0)
    × (strlen 9 10 memory ≡ some 3)
unfolding memcmp memcmp_loop strncmp strncmp_loop strlen strlen_loop
compare_runs = (refl, refl, refl, refl)

memmove_lem_example : memmove 11 10 3 memory 13 ≡ 99
memmove_lem_example = memmove_lem 11 10 3 memory 13

-- The tokens that `strtok` gives one after the other, at most `calls` of them.
abbrev all_tokens : (calls fuel str : ℕ) (delim : List ℕ) (g_saved : ℕ) → Arr → List ℕ
all_tokens zero fuel str delim g_saved mem = []
all_tokens (suc calls) fuel str delim g_saved mem = elim (strtok fuel str delim g_saved mem) [
  | none ↦ []
  | some (token, saved, mem') ↦
      if token == 0 then [] else token ∷ all_tokens calls fuel 0 delim saved mem'
]

splits :
    all_tokens 9 9 100 (b'/' ∷ []) 0 (write_bytes (codes "/bin//sh") 100 (λ _. 0)) ≡ 101 ∷ 106 ∷ []
unfolding strtok skip_separators find_separator is_separator write_bytes
splits = refl
