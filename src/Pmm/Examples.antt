-- ===== src/Pmm/Examples.antt =====
-- mm/pmm.c on a small memory map, and the theorems at it.
use epona_os.Base.{
  ℕ, ◌*◌, ◌<◌, ◌≡◌, refl, ◌≢◌, true, ◌&&◌, not, List, [], ◌∷◌, arith, ltb, leb, ◌==◌, if◌then◌else◌,
}
use epona_os.Pmm.{
  E820Entry, Pmm, page_size, max_frames, bm_set, bm_clear, bm_test, set_run, clear_run, free_usable,
  highest, count_loop, init, alloc_loop, alloc, run_free, contiguous_loop, alloc_contiguous,
  free_bytes,
}
use epona_os.Pmm.Bitmap.{is_used}
use epona_os.Pmm.Count.{IsValid, count_used}
use epona_os.Pmm.Alloc.{AllocResult, alloc_first_free}
use epona_os.Pmm.Init.{covered, last_frame, init_lem}

-- Sixteen frames, of which 0 to 7 and 10 are in use.
abbrev small : Pmm
small = record {
  bitmap = λ i. if i == 0 then 255 else if i == 1 then 4 else 0;
  total_frames = 16;
  used_frames = 9;
}

small-IsValid : IsValid small
unfolding count_used bm_test
small-IsValid = record { bytes = λ i. ground arith; small = omega arith; counted = refl }

alloc_runs :
    ((alloc small).0 ≡ 8 * page_size) × ((alloc (alloc (alloc small).1).1).0 ≡ 11 * page_size)
unfolding alloc alloc_loop bm_test bm_set
alloc_runs = (refl, refl)

contiguous_runs :
    ((alloc_contiguous 3 small).0 ≡ 11 * page_size) × ((alloc_contiguous 6 small).0 ≡ 0)
unfolding alloc_contiguous contiguous_loop run_free bm_test
contiguous_runs = (refl, refl)

-- Five free frames at the very end are not found: the last run that is looked at starts at frame 10.
last_run_missed : (alloc_contiguous 5 small).0 ≡ 0
unfolding alloc_contiguous contiguous_loop run_free bm_test
last_run_missed = refl

abbrev map : List E820Entry
map =
    record { base = 0; len = 0x9fc00; kind = 1 }
    ∷ record { base = 0x100000; len = 0x300800; kind = 1 }
    ∷ []

init_runs :
    ((init map).total_frames ≡ 1024)
    × ((init map).used_frames ≡ 512)
    × ((alloc (init map)).0 ≡ 0x200000)
unfolding init clear_run set_run free_usable highest count_loop alloc alloc_loop bm_test bm_set
    bm_clear
init_runs = (refl, refl, refl)

alloc_first_free_example : AllocResult small 0 (alloc small)
alloc_first_free_example = alloc_first_free small small-IsValid

alloc_ne_null : (alloc small).0 ≢ 0
unfolding alloc alloc_loop bm_test bm_set
alloc_ne_null = omega arith

zero_used : is_used small.bitmap 0 ≡ true
unfolding bm_test
zero_used = refl

has_room : 0 < free_bytes small
unfolding free_bytes
has_room = omega arith

init_lem_example :
    IsValid (init map)
    × ((init map).total_frames
        ≡ (if ltb max_frames (last_frame map) then max_frames else last_frame map))
    × ((g : ℕ) → g < max_frames → is_used (init map).bitmap g ≡ not (leb 512 g && covered map g))
init_lem_example = init_lem map (omega arith, omega arith, (omega arith, omega arith, _))
