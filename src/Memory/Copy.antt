-- ===== src/Memory/Copy.antt =====
-- lib/string.c: memmove copies also when the ranges overlap.
use epona_os.Base.{
  ℕ, zero, suc, ◌+◌, ◌-◌, ◌≤◌, ◌<◌, ◌≡◌, sym, ap, ◌∙◌, ◌⊎◌, inl, inr, Bool, ◌&&◌, arith, Arr, upd,
  upd_ne, ltb, leb, ◌==◌, if◌then◌else◌, Bool-cases,
}
use epona_os.Memory.{copy_forward, copy_backward, memcpy, memmove}

-- Address `j` is one of the `n` from `dst` on.
abbrev pub inside : (dst n j : ℕ) → Bool
inside dst n j = leb dst j && ltb j (dst + n)

copy_forward_lem :
    (n i dst src : ℕ) (mem : Arr) (j : ℕ)
    → (dst < src) ⊎ (src + (i + n) ≤ dst)
    → copy_forward n i dst src mem j
      ≡ (if inside (dst + i) n j then mem (src + (j - dst)) else mem j)
unfolding copy_forward
copy_forward_lem zero i dst src mem j h = ground arith
copy_forward_lem (suc n) i dst src mem j h =
    let m : Arr = upd mem (dst + i) (mem (src + i)) in
    let ih = copy_forward_lem n (i + 1) dst src m j (ground arith) in
    elim (Bool-cases (dst + i == j)) [
      | inl e ↦ let at : src + i ≡ src + (j - dst) = ground arith in ground (arith, ih, ap mem at)
      | inr e ↦ ground (arith, ih, upd_ne mem (dst + i) (src + (j - dst)) (mem (src + i)))
    ]

copy_backward_lem :
    (n dst src : ℕ) (mem : Arr) (j : ℕ)
    → src ≤ dst
    → copy_backward n dst src mem j ≡ (if inside dst n j then mem (src + (j - dst)) else mem j)
unfolding copy_backward
copy_backward_lem zero dst src mem j h = ground arith
copy_backward_lem (suc n) dst src mem j h =
    let m : Arr = upd mem (dst + n) (mem (src + n)) in
    let ih = copy_backward_lem n dst src m j h in
    elim (Bool-cases (dst + n == j)) [
      | inl e ↦ let at : src + n ≡ src + (j - dst) = ground arith in ground (arith, ih, ap mem at)
      | inr e ↦ ground (arith, ih, upd_ne mem (dst + n) (src + (j - dst)) (mem (src + n)))
    ]

-- After `memmove`, each of the `n` bytes from `dst` on is what stood at the same place from `src` on before
-- the call, also when the two ranges overlap, and no other byte has changed.
pub memmove_lem :
    (dst src n : ℕ) (mem : Arr) (j : ℕ)
    → memmove dst src n mem j ≡ (if inside dst n j then mem (src + (j - dst)) else mem j)
unfolding memmove
memmove_lem dst src n mem j = elim (Bool-cases (ltb dst src)) [
  | inl e ↦
      let here : dst + 0 ≡ dst = omega arith in
      rw e (
        copy_forward_lem n 0 dst src mem j (inl (ground arith))
        ∙ ap (λ d. if inside d n j then mem (src + (j - dst)) else mem j) here)
  | inr e ↦ rw e (copy_backward_lem n dst src mem j (ground arith))
]

-- `memcpy` does the same as `memmove` when `dst` comes first or the ranges do not overlap.
pub memcpy-memmove :
    (dst src n : ℕ) (mem : Arr) (j : ℕ)
    → (dst < src) ⊎ (src + n ≤ dst)
    → memcpy dst src n mem j ≡ memmove dst src n mem j
unfolding memcpy
memcpy-memmove dst src n mem j h =
    let here : dst + 0 ≡ dst = omega arith in
    copy_forward_lem n 0 dst src mem j (ground arith)
    ∙ ap (λ d. if inside d n j then mem (src + (j - dst)) else mem j) here
    ∙ sym (memmove_lem dst src n mem j)
