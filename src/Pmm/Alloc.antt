-- ===== src/Pmm/Alloc.antt =====
-- mm/pmm.c: `pmm_alloc` on a valid allocator.
use epona_os.Base.{
  ℕ, zero, suc, ◌+◌, ◌*◌, ◌≤◌, ◌<◌, ◌≡◌, refl, ◌⊎◌, inl, inr, true, false, ◌||◌, arith, ◌==◌,
  Bool-cases, extend_down,
}
use epona_os.Pmm.{Pmm, page_size, bm_set, bm_test, alloc_loop, alloc, free}
use epona_os.Pmm.Bitmap.{is_used, bm_set-Bytes, is_used-bm_set}
use epona_os.Pmm.Count.{IsValid, in_run, count_used-bm_set}

-- `t` is `s` with the `count` free frames from `first` on put in use.
pub record Taken (s t : Pmm) (first count : ℕ) : Type 0 where
  pub valid : IsValid t
  pub total : t.total_frames ≡ s.total_frames
  pub used : t.used_frames ≡ s.used_frames + count
  pub were_free : (g : ℕ) → first ≤ g → g < first + count → is_used s.bitmap g ≡ false
  pub bits : (g : ℕ) → is_used t.bitmap g ≡ (is_used s.bitmap g || in_run first count g)

-- What `pmm_alloc` returns when it looks from frame `from` on: the first free frame, or NULL.
abbrev pub AllocResult : Pmm → ℕ → ℕ × Pmm → Type 0
AllocResult s from (p, t) =
    ((p ≡ 0) × (t ≡ s) × ((g : ℕ) → from ≤ g → g < s.total_frames → is_used s.bitmap g ≡ true))
    ⊎ ((f : ℕ) × (f < s.total_frames)
        × (p ≡ f * page_size)
        × Taken s t f 1
        × ((g : ℕ) → from ≤ g → g < f → is_used s.bitmap g ≡ true))

take_one :
    (s : Pmm) (f : ℕ)
    → IsValid s
    → f < s.total_frames
    → is_used s.bitmap f ≡ false
    → Taken s (record s { bitmap = bm_set s.bitmap f; used_frames = s.used_frames + 1 }) f 1
take_one s f v lt e = record {
  valid = record {
    bytes = bm_set-Bytes s.bitmap f v.bytes;
    small = v.small;
    counted = omega (arith, v.counted, count_used-bm_set s.bitmap f v.bytes s.total_frames lt e);
  };
  total = refl;
  used = refl;
  were_free = λ g p q. let same : f ≡ g = omega arith in ground arith;
  bits = λ g. ground (arith, is_used-bm_set s.bitmap f g v.bytes);
}

AllocResult-step :
    (s : Pmm) (f : ℕ) (r : ℕ × Pmm)
    → is_used s.bitmap f ≡ true
    → AllocResult s (f + 1) r
    → AllocResult s f r
AllocResult-step s f (p, t) e (inl (z, same, all)) =
    inl (z, same, extend_down (λ g. is_used s.bitmap g ≡ true) f s.total_frames e all)
AllocResult-step s f (p, t) e (inr (x, lt, at, taken, all)) =
    inr (x, lt, at, taken, extend_down (λ g. is_used s.bitmap g ≡ true) f x e all)

alloc_loop_lem :
    (n f : ℕ) (s : Pmm) → IsValid s → f + n ≡ s.total_frames → AllocResult s f (alloc_loop n f s)
unfolding alloc_loop
alloc_loop_lem zero f s v e = inl (refl, refl, λ g p q. absurd (omega arith))
alloc_loop_lem (suc n) f s v e = elim (Bool-cases (bm_test s.bitmap f == 0)) [
  | inl free ↦ rw free (
      inr (
        f,
        omega arith,
        refl,
        take_one s f v (omega arith) (ground arith),
        λ g p q. absurd (omega arith),
      ))
  | inr used ↦
      rw used (AllocResult-step s f _ (ground arith) (alloc_loop_lem n (f + 1) s v (omega arith)))
]

-- On a valid allocator `pmm_alloc` returns NULL and changes nothing if every frame is in use;
-- otherwise it returns the address of the first free frame, puts that frame and no other in use,
-- counts it, and leaves the allocator valid. The address of frame 0 is NULL too: where frame 0 is free, which
-- the invariant allows, the call takes it and returns 0.
pub alloc_first_free : (s : Pmm) → IsValid s → AllocResult s 0 (alloc s)
unfolding alloc
alloc_first_free s v = alloc_loop_lem s.total_frames 0 s v (omega arith)
