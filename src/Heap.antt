-- ===== src/Heap.antt =====
-- mm/heap.c: the kernel heap, a doubly linked list of blocks with their headers in memory.
use epona_os.Base.{
  ℕ, zero, suc, ◌+◌, ◌-◌, ◌*◌, ◌/◌, ◌%◌, ◌^◌, ◌≤◌, ◌<◌, bit_and, bit_or, bit_xor, ◌≡◌, refl, sym,
  ap, ◌∙◌, ◌≢◌, ◌↔◌, ◌⊎◌, inl, inr, Bool, true, false, ◌&&◌, ◌||◌, not, Option, none, some, List,
  [], ◌∷◌, ◌++◌, arith, Arr, upd, upd_self, upd_ne, subst, length, length-append, ltb, leb, ◌==◌,
  ==_iff, if◌then◌else◌, Bool-cases, if_elim, extend_down, Option-cases, ltb→lt, &&_split,
  all_below, all_below_sound, bytes_at, length-bytes_at, bytes_at_ext, bytes_at-add, codes,
  write_bytes, write_bytes-out, bytes_at-write_bytes, Spells, Spells-append, Spells-join,
  Spells-ext, Spells-write_bytes,
}
use epona_os.Pmm.{Pmm, page_size}
use epona_os.Pmm
pub mod Carve
pub mod FirstFit
pub mod Bytes
mod Examples

-- The packed `heap_header_t` has 25 bytes.
abbrev pub header_size : ℕ
header_size = 25

abbrev pub heap_align : ℕ
heap_align = 16

abbrev pub min_block : ℕ
min_block = 64

abbrev pub heap_start : ℕ
heap_start = 0xFFFF880000000000

-- `heap_header_t`. `next` and `prev` are addresses of headers, 0 for NULL.
pub record Header : Type 0 where
  pub size : ℕ
  pub free : Bool
  pub next : ℕ
  pub prev : ℕ

-- The headers at their addresses.
abbrev pub Headers : Type 0
Headers = ℕ → Header

-- The static variables, and the frame allocator.
pub record Heap : Type 0 where
  pub headers : Headers
  pub start : ℕ
  pub last : ℕ
  pub virt_top : ℕ
  pub frames : Pmm

-- `heap_create_block`
abbrev pub create_block : (virt size : ℕ) → Headers → Headers
create_block virt size h = upd h virt (record { size = size; free = true; next = 0; prev = 0 })

-- `heap_init`, without the page table.
pub init : Heap → Heap
init g =
    let (frame, frames) = Pmm.alloc_contiguous 256 g.frames in
    record {
      headers = create_block heap_start (256 * page_size) g.headers;
      start = heap_start;
      last = heap_start;
      virt_top = heap_start + 256 * page_size;
      frames = frames;
    }

-- `kmalloc`: the size of the block for a request of `size` bytes.
pub block_size : ℕ → ℕ
block_size size =
    let rounded =
      if size % heap_align == 0
      then size
      else (size + (heap_align - 1)) % 2 ^ 64 / heap_align * heap_align in
    let total = (rounded + header_size) % 2 ^ 64 in if ltb total min_block then min_block else total

-- `h->next->prev = to`, unless there is no next one.
abbrev pub link_back : (next to : ℕ) → Headers → Headers
link_back next to h = if next == 0 then h else upd h next (record (h next) { prev = to })

-- The block is split if what is left can be a block, and it is in use.
pub take_block : (curr total : ℕ) → Headers → Headers
take_block curr total h =
    let b = h curr in
    let new_h = curr + total in
    if leb (total + min_block) b.size
    then upd
        (link_back b.next new_h
          (upd h new_h (record { size = b.size - total; free = true; next = b.next; prev = curr })))
        curr (record b { size = total; next = new_h; free = false })
    else upd h curr (record b { free = false })

-- The search of `kmalloc`, through at most `fuel` blocks: the block that is taken.
pub search : (fuel curr total : ℕ) → Headers → Option (ℕ × Headers)
search zero curr total h = none
search (suc fuel) curr total h =
    let rest = search fuel (h curr).next total h in
    if curr == 0
    then none
    else if (h curr).free && leb total (h curr).size
    then some (curr, take_block curr total h)
    else rest

-- The loop that asks for the frames of the new pages; those it got stay in use when there are too few.
pub take_frames : (pages : ℕ) → Pmm → Bool × Pmm
take_frames zero s = (true, s)
take_frames (suc pages) s =
    let (frame, s') = Pmm.alloc s in
    let rest = take_frames pages s' in if frame == 0 then (false, s') else rest

-- The end of `kmalloc`: the heap grows by whole pages.
pub grow : (total : ℕ) → Heap → ℕ × Heap
grow total g =
    let wanted = if ltb 0x10000 total then total else 0x10000 in
    let pages = (wanted + page_size - 1) % 2 ^ 64 / page_size in
    let virt = g.virt_top in
    let (ok, frames) = take_frames pages g.frames in
    let made = create_block virt (pages * page_size) g.headers in
    let prevd = upd made virt (record (made virt) { prev = g.last }) in
    let linked = upd prevd g.last (record (prevd g.last) { next = virt }) in
    let top = (virt + pages * page_size) % 2 ^ 64 in
    if not ok
    then (0, record g { frames = frames })
    else if leb total (pages * page_size)
    then (
      virt + header_size,
      record g {
        headers = take_block virt total linked;
        last = virt;
        virt_top = top;
        frames = frames;
      },
    )
    else (0, record g { headers = linked; last = virt; virt_top = top; frames = frames })

-- `kmalloc`, for a list of fewer than `fuel` blocks.
pub kmalloc : (fuel size : ℕ) → Heap → ℕ × Heap
kmalloc fuel size g =
    if size == 0 then (0, g) else elim (search fuel g.start (block_size size) g.headers) [
      | none ↦ grow (block_size size) g
      | some (curr, headers) ↦ (curr + header_size, record g { headers = headers })
    ]

-- `heap_coalesce`
pub coalesce : ℕ → Headers → Headers
coalesce a h =
    let b = h a in
    let n = h b.next in
    if not (b.next == 0) && n.free
    then link_back n.next a (upd h a (record b { size = b.size + n.size; next = n.next }))
    else h

-- `kfree`
pub kfree : ℕ → Heap → Heap
kfree ptr g =
    let a = ptr - header_size in
    let h = upd g.headers a (record (g.headers a) { free = true }) in
    if ptr == 0
    then g
    else if not ((h a).prev == 0) && (h (h a).prev).free
    then record g { headers = coalesce (h a).prev h }
    else record g { headers = coalesce a h }

-- `ksize`
pub ksize : ℕ → Heap → ℕ
ksize ptr g = if ptr == 0 then 0 else (g.headers (ptr - header_size)).size - header_size
