-- ===== src/Pmm/Init.antt =====
-- mm/pmm.c: what `pmm_init` makes of the BIOS memory map.
use epona_os.Base.{
  ℕ, ◌+◌, ◌-◌, ◌*◌, ◌/◌, ◌%◌, ◌^◌, ◌<◌, bit_and, ◌≡◌, refl, ◌∙◌, inl, inr, Bool, true, false, ◌&&◌,
  ◌||◌, not, List, [], ◌∷◌, arith, Arr, ltb, leb, ◌==◌, if◌then◌else◌, Bool-cases, all_below,
  all_below_sound,
}
use epona_os.Pmm.{
  E820Entry, max_frames, first_frame, stop_frame, run_end, set_run, free_usable, highest, init,
  bm_test,
}
use epona_os.Pmm.Bitmap.{Bytes, is_used}
use epona_os.Pmm.Count.{
  IsValid, count_loop_from_zero, set_run-Bytes, is_used-set_run, clear_run-Bytes, is_used-clear_run,
}

-- Frame `g` lies as a whole in a usable range of the memory map.
abbrev pub covered : List E820Entry → ℕ → Bool
covered [] g = false
covered (e ∷ es) g =
    (e.kind == 1 && leb e.base (g * 4096) && leb ((g + 1) * 4096) (e.base + e.len)) || covered es g

-- No range of the memory map reaches the end of the 64-bit addresses.
abbrev pub AllFit : List E820Entry → Type 0
AllFit [] = Unit
AllFit (e ∷ es) = (e.base + 4095 < 2 ^ 64) × (e.base + e.len < 2 ^ 64) × AllFit es

-- The number of the frame after the last that ends in a usable range.
abbrev pub last_frame : List E820Entry → ℕ
last_frame [] = 0
last_frame (e ∷ es) =
    let rest = last_frame es in
    let here = (e.base + e.len) / 4096 in
    if e.kind == 1 then (if ltb rest here then here else rest) else rest

highest-last_frame :
    (es : List E820Entry) (total : ℕ)
    → AllFit es
    → highest es total ≡ (if ltb total (last_frame es) then last_frame es else total)
unfolding highest
highest-last_frame [] total fit = ground arith
highest-last_frame (e ∷ es) total (lo, hi, fit) = elim (Bool-cases (e.kind == 1)) [
  | inl usable ↦
      let stop : stop_frame e ≡ (e.base + e.len) / 4096 = omega (arith, hi) in
      rw (usable, stop)
        (highest-last_frame es
            (if ltb total ((e.base + e.len) / 4096) then (e.base + e.len) / 4096 else total) fit
          ∙ ground arith)
  | inr other ↦ rw other (highest-last_frame es total fit)
]

free_usable-Bytes : (es : List E820Entry) (bm : Arr) → Bytes bm → Bytes (free_usable es bm)
unfolding free_usable
free_usable-Bytes [] bm h = h
free_usable-Bytes (e ∷ es) bm h = elim (Bool-cases (e.kind == 1)) [
  | inl usable ↦
      rw usable
        (free_usable-Bytes es _ (clear_run-Bytes (run_end e - first_frame e) (first_frame e) bm h))
  | inr other ↦ rw other (free_usable-Bytes es bm h)
]

is_used-free_usable :
    (es : List E820Entry) (bm : Arr) (g : ℕ)
    → Bytes bm
    → g < max_frames
    → AllFit es
    → is_used (free_usable es bm) g ≡ (is_used bm g && not (covered es g))
unfolding free_usable
is_used-free_usable [] bm g h lt fit = ground arith
is_used-free_usable (e ∷ es) bm g h lt (lo, hi, fit) = elim (Bool-cases (e.kind == 1)) [
  | inl usable ↦ rw usable (
      is_used-free_usable es _ g (clear_run-Bytes (run_end e - first_frame e) (first_frame e) bm h)
        lt fit
      ∙ ground
          (arith, lo, hi, is_used-clear_run (run_end e - first_frame e) (first_frame e) bm g h))
  | inr other ↦ rw other (is_used-free_usable es bm g h lt fit)
]

all_used : (g : ℕ) → is_used (λ _. 255) g ≡ true
unfolding bm_test all_below
all_used g =
    ground
      (arith, all_below_sound 8 (λ k. not (bit_and 255 (2 ^ k) == 0)) (g % 8) refl (omega arith))

-- After `pmm_init` on a memory map whose ranges end below 2 ^ 64 and start a page below it at least, a frame
-- below MAX_FRAMES is free exactly when it lies above the first 2 MiB and its 4096 bytes all lie in one
-- usable range; the frames looked after are those up to the last that ends in a usable range, and MAX_FRAMES
-- at most; and the allocator is valid, so that the count of used frames is right.
pub init_lem :
    (es : List E820Entry)
    → AllFit es
    → IsValid (init es)
      × ((init es).total_frames
          ≡ (if ltb max_frames (last_frame es) then max_frames else last_frame es))
      × ((g : ℕ) → g < max_frames → is_used (init es).bitmap g ≡ not (leb 512 g && covered es g))
unfolding init
init_lem es fit =
    let bm0 : Arr = free_usable es (λ _. 255) in
    let bytes = free_usable-Bytes es (λ _. 255) (λ i. omega arith) in
    (
      record {
        bytes = set_run-Bytes 512 0 bm0 bytes;
        small = ground arith;
        counted = count_loop_from_zero _ (set_run 512 0 bm0);
      },
      (let top : highest es 0 ≡ last_frame es = highest-last_frame es 0 fit ∙ ground arith in
          rw top refl),
      λ g lt. ground (
        arith,
        is_used-set_run 512 0 bm0 g bytes,
        is_used-free_usable es (λ _. 255) g (λ i. omega arith) lt fit,
        all_used g,
      ),
    )
