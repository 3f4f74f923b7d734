-- ===== src/Pmm/Count.antt =====
-- mm/pmm.c: the number of frames in use, the invariant of the allocator, and runs of frames.
use epona_os.Base.{
  ℕ, zero, suc, ◌+◌, ◌≤◌, ◌<◌, ◌≡◌, refl, ap, ◌∙◌, inl, inr, Bool, true, false, ◌&&◌, ◌||◌, not,
  arith, Arr, ltb, leb, ◌==◌, if◌then◌else◌, Bool-cases,
}
use epona_os.Pmm.{Pmm, bm_set, bm_clear, clear_run, set_run, count_loop, max_frames}
use epona_os.Pmm.Bitmap.{
  Bytes, is_used, bm_set-Bytes, bm_clear-Bytes, is_used-bm_set, is_used-bm_clear,
}

-- How many of the first `n` frames are in use.
unfoldable pub count_used : ℕ → Arr → ℕ
count_used zero bm = 0
count_used (suc n) bm = count_used n bm + (if is_used bm n then 1 else 0)

pub record IsValid (s : Pmm) : Type 0 where
  pub bytes : Bytes s.bitmap
  pub small : s.total_frames ≤ max_frames
  pub counted : s.used_frames ≡ count_used s.total_frames s.bitmap

-- Frame `g` is one of the `count` frames from `first` on.
abbrev pub in_run : ℕ → ℕ → ℕ → Bool
in_run first count g = leb first g && ltb g (first + count)

pub count_used-le : (n : ℕ) (bm : Arr) → count_used n bm ≤ n
unfolding count_used
count_used-le zero bm = omega arith
count_used-le (suc n) bm = ground (arith, count_used-le n bm)

count_used_ext :
    (n : ℕ) (a b : Arr)
    → ((i : ℕ) → i < n → is_used a i ≡ is_used b i)
    → count_used n a ≡ count_used n b
unfolding count_used
count_used_ext zero a b h = refl
count_used_ext (suc n) a b h =
    ground (arith, count_used_ext n a b (λ i p. h i (omega arith)), h n (omega arith))

module _ (bm : Arr) (f : ℕ) (bytes : Bytes bm) where
  pub count_used-bm_set :
      (n : ℕ) → f < n → is_used bm f ≡ false → count_used n (bm_set bm f) ≡ count_used n bm + 1
  unfolding count_used
  count_used-bm_set zero h e = elim h [ ]
  count_used-bm_set (suc n) h e = elim (Bool-cases (f == n)) [
    | inl p ↦ ground (
      arith,
      is_used-bm_set bm f n bytes,
      count_used_ext n (bm_set bm f) bm (λ i q. ground (arith, is_used-bm_set bm f i bytes)),
    )
    | inr p ↦ ground (arith, is_used-bm_set bm f n bytes, count_used-bm_set n (ground arith) e)
  ]

  pub count_used-bm_clear :
      (n : ℕ) → f < n → is_used bm f ≡ true → count_used n (bm_clear bm f) + 1 ≡ count_used n bm
  unfolding count_used
  count_used-bm_clear zero h e = elim h [ ]
  count_used-bm_clear (suc n) h e = elim (Bool-cases (f == n)) [
    | inl p ↦ ground (
      arith,
      is_used-bm_clear bm f n bytes,
      count_used_ext n (bm_clear bm f) bm (λ i q. ground (arith, is_used-bm_clear bm f i bytes)),
    )
    | inr p ↦ ground (arith, is_used-bm_clear bm f n bytes, count_used-bm_clear n (ground arith) e)
  ]

-- The loop at the end of `pmm_init` counts.
pub count_loop_lem :
    (n f : ℕ) (bm : Arr) (used : ℕ)
    → used ≡ count_used f bm
    → count_loop n f bm used ≡ count_used (f + n) bm
unfolding count_loop count_used
count_loop_lem zero f bm used h = let e : f + 0 ≡ f = omega arith in rw e h
count_loop_lem (suc n) f bm used h =
    let e : f + suc n ≡ suc f + n = omega arith in
    let e' : f + 1 ≡ suc f = omega arith in
    rw (e, e') (count_loop_lem n (suc f) bm _ (ground arith))

pub count_loop_from_zero : (n : ℕ) (bm : Arr) → count_loop n 0 bm 0 ≡ count_used n bm
unfolding count_used
count_loop_from_zero n bm =
    let e : 0 + n ≡ n = omega arith in count_loop_lem n 0 bm 0 refl ∙ ap (λ k. count_used k bm) e

pub set_run-Bytes : (n f : ℕ) (bm : Arr) → Bytes bm → Bytes (set_run n f bm)
unfolding set_run
set_run-Bytes zero f bm h = h
set_run-Bytes (suc n) f bm h = set_run-Bytes n (f + 1) (bm_set bm f) (bm_set-Bytes bm f h)

pub is_used-set_run :
    (n f : ℕ) (bm : Arr) (g : ℕ)
    → Bytes bm
    → is_used (set_run n f bm) g ≡ (is_used bm g || in_run f n g)
unfolding set_run
is_used-set_run zero f bm g h = ground arith
is_used-set_run (suc n) f bm g h = ground (
  arith,
  is_used-set_run n (f + 1) (bm_set bm f) g (bm_set-Bytes bm f h),
  is_used-bm_set bm f g h,
)

pub clear_run-Bytes : (n f : ℕ) (bm : Arr) → Bytes bm → Bytes (clear_run n f bm)
unfolding clear_run
clear_run-Bytes zero f bm h = h
clear_run-Bytes (suc n) f bm h = clear_run-Bytes n (f + 1) (bm_clear bm f) (bm_clear-Bytes bm f h)

pub is_used-clear_run :
    (n f : ℕ) (bm : Arr) (g : ℕ)
    → Bytes bm
    → is_used (clear_run n f bm) g ≡ (is_used bm g && not (in_run f n g))
unfolding clear_run
is_used-clear_run zero f bm g h = ground arith
is_used-clear_run (suc n) f bm g h = ground (
  arith,
  is_used-clear_run n (f + 1) (bm_clear bm f) g (bm_clear-Bytes bm f h),
  is_used-bm_clear bm f g h,
)

-- Setting a run of free frames raises the count by its length.
pub count_used-set_run :
    (n f total : ℕ) (bm : Arr)
    → Bytes bm
    → f + n ≤ total
    → ((g : ℕ) → f ≤ g → g < f + n → is_used bm g ≡ false)
    → count_used total (set_run n f bm) ≡ count_used total bm + n
unfolding set_run
count_used-set_run zero f total bm b h free = omega arith
count_used-set_run (suc n) f total bm b h free = omega (
  arith,
  count_used-set_run n (f + 1) total (bm_set bm f) (bm_set-Bytes bm f b) (omega arith)
      (λ g p q. ground (arith, is_used-bm_set bm f g b, free g (omega arith) (omega arith))),
  count_used-bm_set bm f b total (omega arith) (free f (omega arith) (omega arith)),
)
