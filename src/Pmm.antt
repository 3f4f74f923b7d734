-- ===== src/Pmm.antt =====
-- mm/pmm.c: the physical frame allocator, a bitmap with one bit for each 4 KiB frame.
-- An address is a number and NULL is 0. `f >> 3` and `f & 7` are written `f / 8` and `f % 8`.
use epona_os.Base.{
  ℕ, zero, suc, ◌+◌, ◌-◌, ◌*◌, ◌/◌, ◌%◌, ◌^◌, bit_and, bit_or, bit_xor, Bool, true, false, ◌&&◌,
  not, List, [], ◌∷◌, Arr, upd, ltb, ◌==◌, if◌then◌else◌,
}
pub mod Bitmap
pub mod Count
pub mod Alloc
pub mod Contiguous
pub mod Free
pub mod Init
mod Examples

abbrev pub page_size : ℕ
page_size = 4096

abbrev pub max_frames : ℕ
max_frames = 1024 * 1024

abbrev pub reserve_low : ℕ
reserve_low = 2 * 1024 * 1024

-- `struct e820_entry`; `kind` is the field `type`.
pub record E820Entry : Type 0 where
  pub base : ℕ
  pub len : ℕ
  pub kind : ℕ

-- The file's static variables.
pub record Pmm : Type 0 where
  pub bitmap : Arr
  pub total_frames : ℕ
  pub used_frames : ℕ

unfoldable pub bm_set : Arr → ℕ → Arr
bm_set bm f = upd bm (f / 8) (bit_or (bm (f / 8)) (2 ^ (f % 8)))

-- `(uint8_t) ~(1u << k)` flips the eight bits.
pub bm_clear : Arr → ℕ → Arr
bm_clear bm f = upd bm (f / 8) (bit_and (bm (f / 8)) (bit_xor 255 (2 ^ (f % 8))))

-- Nonzero when frame `f` is in use.
unfoldable pub bm_test : Arr → ℕ → ℕ
bm_test bm f = bit_and (bm (f / 8)) (2 ^ (f % 8))

-- The loops of `pmm_init` recur on the rounds left.
pub clear_run : ℕ → ℕ → Arr → Arr
clear_run zero f bm = bm
clear_run (suc n) f bm = clear_run n (f + 1) (bm_clear bm f)

pub set_run : ℕ → ℕ → Arr → Arr
set_run zero f bm = bm
set_run (suc n) f bm = set_run n (f + 1) (bm_set bm f)

abbrev pub first_frame : E820Entry → ℕ
first_frame e = (e.base + page_size - 1) % 2 ^ 64 / page_size

abbrev pub stop_frame : E820Entry → ℕ
stop_frame e = (e.base + e.len) % 2 ^ 64 / page_size

-- `f < stop && f < MAX_FRAMES`
abbrev pub run_end : E820Entry → ℕ
run_end e = if ltb (stop_frame e) max_frames then stop_frame e else max_frames

pub free_usable : List E820Entry → Arr → Arr
free_usable [] bm = bm
free_usable (e ∷ es) bm =
    free_usable es
      (if e.kind == 1 then clear_run (run_end e - first_frame e) (first_frame e) bm else bm)

pub highest : List E820Entry → ℕ → ℕ
highest [] total = total
highest (e ∷ es) total =
    highest es
      (if e.kind == 1 then (if ltb total (stop_frame e) then stop_frame e else total) else total)

pub count_loop : ℕ → ℕ → Arr → ℕ → ℕ
count_loop zero f bm used = used
count_loop (suc n) f bm used =
    count_loop n (f + 1) bm (if bm_test bm f == 0 then used else used + 1)

pub init : List E820Entry → Pmm
init es =
    let bm = set_run (reserve_low / page_size) 0 (free_usable es (λ _. 255)) in
    let top = highest es 0 in
    let total = if ltb max_frames top then max_frames else top in
    record { bitmap = bm; total_frames = total; used_frames = count_loop total 0 bm 0 }

unfoldable pub alloc_loop : ℕ → ℕ → Pmm → ℕ × Pmm
alloc_loop zero f s = (0, s)
alloc_loop (suc n) f s =
    let rest = alloc_loop n (f + 1) s in
    if bm_test s.bitmap f == 0
    then (f * page_size, record s { bitmap = bm_set s.bitmap f; used_frames = s.used_frames + 1 })
    else rest

-- `pmm_alloc`: the address of the frame, or NULL.
unfoldable pub alloc : Pmm → ℕ × Pmm
alloc s = alloc_loop s.total_frames 0 s

-- The inner loop of `pmm_alloc_contiguous`: its `ok`.
pub run_free : ℕ → ℕ → Arr → Bool
run_free zero f bm = true
run_free (suc n) f bm =
    let rest = run_free n (f + 1) bm in if bm_test bm f == 0 then rest else false

pub contiguous_loop : ℕ → ℕ → ℕ → Pmm → ℕ × Pmm
contiguous_loop zero f count s = (0, s)
contiguous_loop (suc n) f count s =
    let rest = contiguous_loop n (f + 1) count s in
    if run_free count f s.bitmap
    then (
      f * page_size,
      record s { bitmap = set_run count f s.bitmap; used_frames = s.used_frames + count },
    )
    else rest

-- The bound `g_total_frames - count` is a subtraction of 64-bit words.
pub alloc_contiguous : ℕ → Pmm → ℕ × Pmm
alloc_contiguous count s =
    if count == 0
    then (0, s)
    else if count == 1
    then alloc s
    else contiguous_loop ((s.total_frames + 2 ^ 64 - count) % 2 ^ 64) 0 count s

pub free : ℕ → Pmm → Pmm
free frame s =
    let f = frame / page_size in
    if ltb f s.total_frames && not (bm_test s.bitmap f == 0)
    then record s { bitmap = bm_clear s.bitmap f; used_frames = s.used_frames - 1 }
    else s

pub total_bytes : Pmm → ℕ
total_bytes s = s.total_frames * page_size

pub free_bytes : Pmm → ℕ
free_bytes s = (s.total_frames - s.used_frames) * page_size
