-- ===== src/Heap/Bytes.antt =====
-- mm/heap.c: the calls that write the bytes of blocks. `mem` is the memory between the headers.
use epona_os.Base.{ℕ, ◌-◌, ◌*◌, ◌%◌, ◌^◌, Arr, ltb, ◌==◌, if◌then◌else◌}
use epona_os.Memory.{memset, memcpy}
use epona_os.Heap.{Heap, header_size, kmalloc, kfree}

-- `kcalloc`; the product wraps around.
pub kcalloc : (fuel count size : ℕ) → Heap → Arr → ℕ × Heap × Arr
kcalloc fuel count size g mem =
    let total = count * size % 2 ^ 64 in
    let (ptr, g') = kmalloc fuel total g in
    if ptr == 0 then (0, g', mem) else (ptr, g', memset ptr 0 total mem)

-- `krealloc`
pub krealloc : (fuel ptr new_size : ℕ) → Heap → Arr → ℕ × Heap × Arr
krealloc fuel ptr new_size g mem =
    let old_data = (g.headers (ptr - header_size)).size - header_size in
    let kept = if ltb new_size old_data then new_size else old_data in
    let (new_ptr, g') = kmalloc fuel new_size g in
    if ptr == 0
    then (new_ptr, g', mem)
    else if new_size == 0
    then (0, kfree ptr g, mem)
    else if new_ptr == 0
    then (0, g', mem)
    else (new_ptr, kfree ptr g', memcpy new_ptr ptr kept mem)
