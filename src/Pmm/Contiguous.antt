-- ===== src/Pmm/Contiguous.antt =====
-- mm/pmm.c: `pmm_alloc_contiguous` on a valid allocator.
use epona_os.Base.{
  ℕ, zero, suc, ◌+◌, ◌-◌, ◌*◌, ◌%◌, ◌^◌, ◌≤◌, ◌<◌, ◌≡◌, refl, ◌⊎◌, inl, inr, true, false, arith,
  Arr, ◌==◌, Bool-cases, extend_down,
}
use epona_os.Pmm.{
  Pmm, page_size, bm_test, set_run, run_free, contiguous_loop, alloc_contiguous, free,
}
use epona_os.Pmm.Bitmap.{is_used}
use epona_os.Pmm.Count.{IsValid, set_run-Bytes, is_used-set_run, count_used-set_run}
use epona_os.Pmm.Alloc.{Taken}

-- Some frame of the run is in use.
abbrev pub Blocked : Arr → ℕ → ℕ → Type 0
Blocked bm first count = (g : ℕ) × (first ≤ g) × (g < first + count) × (is_used bm g ≡ true)

abbrev AllFree : Arr → ℕ → ℕ → Type 0
AllFree bm first count = (g : ℕ) → first ≤ g → g < first + count → is_used bm g ≡ false

AllFree-cons :
    (bm : Arr) (f n : ℕ) → is_used bm f ≡ false → AllFree bm (f + 1) n → AllFree bm f (suc n)
AllFree-cons bm f n e h g a b =
    extend_down (λ i. is_used bm i ≡ false) f (f + suc n) e (λ i p q. h i p (omega arith)) g a b

run_free-true : (n f : ℕ) (bm : Arr) → run_free n f bm ≡ true → AllFree bm f n
unfolding run_free
run_free-true zero f bm h g a b = absurd (omega arith)
run_free-true (suc n) f bm h g a b =
    AllFree-cons bm f n (ground arith) (run_free-true n (f + 1) bm (ground arith)) g a b

run_free-false : (n f : ℕ) (bm : Arr) → run_free n f bm ≡ false → Blocked bm f n
unfolding run_free
run_free-false zero f bm h = cc
run_free-false (suc n) f bm h = elim (Bool-cases (bm_test bm f == 0)) [
  | inl free ↦
      let (g, a, b, u) = run_free-false n (f + 1) bm (ground arith) in
      (g, omega arith, omega arith, u)
  | inr used ↦ (f, omega arith, omega arith, ground arith)
]

-- What the search for a run that starts in [from, bound) returns.
abbrev pub RunResult : Pmm → ℕ → ℕ → ℕ → ℕ × Pmm → Type 0
RunResult s count from bound (p, t) =
    ((p ≡ 0) × (t ≡ s) × ((g : ℕ) → from ≤ g → g < bound → Blocked s.bitmap g count))
    ⊎ ((f : ℕ) × (f < bound)
        × (p ≡ f * page_size)
        × Taken s t f count
        × ((g : ℕ) → from ≤ g → g < f → Blocked s.bitmap g count))

take_run :
    (s : Pmm) (f count : ℕ)
    → IsValid s
    → f + count ≤ s.total_frames
    → AllFree s.bitmap f count
    → Taken s
        (record s { bitmap = set_run count f s.bitmap; used_frames = s.used_frames + count })
        f
        count
take_run s f count v le free = record {
  valid = record {
    bytes = set_run-Bytes count f s.bitmap v.bytes;
    small = v.small;
    counted =
        omega
          (arith, v.counted, count_used-set_run count f s.total_frames s.bitmap v.bytes le free);
  };
  total = refl;
  used = refl;
  were_free = free;
  bits = λ g. is_used-set_run count f s.bitmap g v.bytes;
}

RunResult-step :
    (s : Pmm) (count f bound : ℕ) (r : ℕ × Pmm)
    → Blocked s.bitmap f count
    → RunResult s count (f + 1) bound r
    → RunResult s count f bound r
RunResult-step s count f bound (p, t) e (inl (z, same, all)) =
    inl (z, same, extend_down (λ g. Blocked s.bitmap g count) f bound e all)
RunResult-step s count f bound (p, t) e (inr (x, lt, at, taken, all)) =
    inr (x, lt, at, taken, extend_down (λ g. Blocked s.bitmap g count) f x e all)

contiguous_loop_lem :
    (n f count bound : ℕ) (s : Pmm)
    → IsValid s
    → f + n ≡ bound
    → bound + count ≤ s.total_frames
    → RunResult s count f bound (contiguous_loop n f count s)
unfolding contiguous_loop
contiguous_loop_lem zero f count bound s v e le = inl (refl, refl, λ g p q. absurd (omega arith))
contiguous_loop_lem (suc n) f count bound s v e le = elim (Bool-cases (run_free count f s.bitmap)) [
  | inl ok ↦ rw ok (
      inr (
        f,
        omega arith,
        refl,
        take_run s f count v (omega arith) (run_free-true count f s.bitmap ok),
        λ g p q. absurd (omega arith),
      ))
  | inr bad ↦ rw bad (
      RunResult-step s count f bound _ (run_free-false count f s.bitmap bad)
        (contiguous_loop_lem n (f + 1) count bound s v (omega arith) le))
]

-- For 2 ≤ count ≤ total on a valid allocator, `pmm_alloc_contiguous` looks at the runs that start
-- before frame `total - count`. If each of them has a frame in use it returns NULL and changes
-- nothing; otherwise it takes the first run that is free as a whole, and nothing else.
pub alloc_contiguous_first_fit :
    (s : Pmm) (count : ℕ)
    → IsValid s
    → 2 ≤ count
    → count ≤ s.total_frames
    → RunResult s count 0 (s.total_frames - count) (alloc_contiguous count s)
unfolding alloc_contiguous
alloc_contiguous_first_fit s count v two le =
    let rounds : (s.total_frames + 2 ^ 64 - count) % 2 ^ 64 ≡ s.total_frames - count =
      omega (arith, v.small) in
    let ne_zero : (count == 0) ≡ false = ground arith in
    let ne_one : (count == 1) ≡ false = ground arith in
    rw (ne_zero, ne_one, rounds)
      (contiguous_loop_lem (s.total_frames - count) 0 count (s.total_frames - count) s v
        (omega arith) (omega arith))
