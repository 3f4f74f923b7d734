-- ===== src/Syscall/Pointers.antt =====
-- kernel/syscall.c: what the checks of addresses and paths from user mode guarantee.
use epona_os.Base.{
  ℕ, zero, suc, ◌+◌, ◌-◌, ◌*◌, ◌/◌, ◌%◌, ◌^◌, ◌≤◌, ◌<◌, ◌≡◌, refl, sym, ap, ◌∙◌, inl, inr, Bool,
  true, ◌||◌, not, none, some, List, [], ◌∷◌, arith, subst, length, ◌==◌, Bool-cases, if_elim,
  Option-cases,
}
use epona_os.Ring.{take}
use epona_os.Syscall.{
  Kernel, all_mapped, validate_user_ptr, copy_from_user, absolute, resolve_user_path,
}

all_mapped_lem :
    (pages page : ℕ) (mapped : ℕ → Bool) (n : ℕ)
    → all_mapped pages page mapped ≡ true
    → n < pages
    → mapped (page + n * 0x1000) ≡ true
unfolding all_mapped
all_mapped_lem zero page mapped n e lt = absurd (omega arith)
all_mapped_lem (suc pages) page mapped zero e lt =
    let here : mapped page ≡ true = ground (arith, e) in ap mapped (omega arith) ∙ here
all_mapped_lem (suc pages) page mapped (suc n) e lt =
    let rest : all_mapped pages (page + 0x1000) mapped ≡ true = ground (arith, e) in
    ap mapped (omega arith) ∙ all_mapped_lem pages (page + 0x1000) mapped n rest (omega arith)

-- When `validate_user_ptr` accepts an address and a size, every byte of that range lies behind the first page and
-- below the end of user memory, and in a page that is mapped.
pub validate_user_ptr_lem :
    (addr size : ℕ) (mapped : ℕ → Bool) (j : ℕ)
    → addr < 2 ^ 64
    → size < 2 ^ 64
    → validate_user_ptr addr size mapped ≡ true
    → addr ≤ j
    → j < addr + size
    → (0x1000 ≤ j) × (j < 0x7fffffffff) × (mapped (j / 0x1000 * 0x1000) ≡ true)
unfolding validate_user_ptr
validate_user_ptr_lem addr size mapped j small small' ok le lt =
    let end : ℕ = (addr + size) % 2 ^ 64 in
    let low : 0x1000 ≤ addr = ground (arith, ok) in
    let same : end ≡ addr + size = ground (arith, ok) in
    let high : addr + size ≤ 0x7fffffffff = ground (arith, ok) in
    let pages : ℕ = ((end + 0xfff) % 2 ^ 64 / 0x1000 * 0x1000 - addr / 0x1000 * 0x1000) / 0x1000 in
    let all : all_mapped pages (addr / 0x1000 * 0x1000) mapped ≡ true = ground (arith, ok) in
    let n : ℕ = j / 0x1000 - addr / 0x1000 in
    let at : j / 0x1000 * 0x1000 ≡ addr / 0x1000 * 0x1000 + n * 0x1000 = omega arith in
    (
      omega arith,
      omega arith,
      ap mapped at
          ∙ all_mapped_lem pages (addr / 0x1000 * 0x1000) mapped n all (omega (arith, same, high)),
    )

length-take : (n : ℕ) (xs : List ℕ) → length (take n xs) ≤ n
length-take zero xs = omega arith
length-take (suc n) [] = omega arith
length-take (suc n) (x ∷ xs) = omega (arith, length-take n xs)

-- A path with a slash in front, which fits into a buffer of `max` characters with its end of string.
pub record IsPath (max : ℕ) (path : List ℕ) : Type 0 where
  pub rest : List ℕ
  pub absolute_path : path ≡ b'/' ∷ rest
  pub fits : length path < max

absolute-IsPath : (max : ℕ) (path : List ℕ) → 1 < max → IsPath max (absolute max path)
absolute-IsPath zero path lt = absurd (omega arith)
absolute-IsPath (suc zero) path lt = absurd (omega arith)
absolute-IsPath (suc (suc m)) [] lt = record { rest = []; absolute_path = refl; fits = omega arith }
absolute-IsPath (suc (suc m)) (c ∷ path) lt =
    if_elim (IsPath (suc (suc m))) (c == b'/')
      (λ e.
        let n : suc (suc m) - 1 ≡ suc m = omega arith in
        let slash : c ≡ b'/' = ground arith in
        subst (λ n. IsPath (suc (suc m)) (take n (c ∷ path))) (sym n)
          (record {
            rest = take m path;
            absolute_path = ap (λ x. x ∷ take m path) slash;
            fits = omega (arith, length-take m path);
          }))
      (λ e. record {
        rest = take (suc (suc m) - 2) (c ∷ path);
        absolute_path = refl;
        fits = omega (arith, length-take (suc (suc m) - 2) (c ∷ path));
      })

-- Whatever `resolve_user_path` hands to the file system is an absolute path that fits into the buffers of 256
-- characters there.
pub resolve_user_path_lem :
    (addr : ℕ) (k : Kernel) (path : List ℕ)
    → resolve_user_path addr 256 k ≡ some path
    → IsPath 256 path
unfolding resolve_user_path
resolve_user_path_lem addr k path e =
    elim (Bool-cases (addr == 0 || not (validate_user_ptr addr 1 k.mapped))) [
      | inl bad ↦ let no_path : none ≡ some path = rw bad at e in absurd (cc (no_path))
      | inr good ↦ elim (Option-cases (copy_from_user addr 256 k)) [
        | inl lost ↦
            let no_path : none ≡ some path = rw (good, lost, resolve_user_path) at e in
            absurd (cc (no_path))
        | inr (text, copied) ↦
            let found : some (absolute 256 text) ≡ some path =
              rw (good, copied, resolve_user_path) at e in
            let same : absolute 256 text ≡ path = cc (found) in
            subst (IsPath 256) same (absolute-IsPath 256 text (omega arith))
      ]
    ]
