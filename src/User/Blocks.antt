-- ===== src/User/Blocks.antt =====
-- user/stdlib.c: malloc and free, on top of the system call `brk` of kernel/syscall.c.
use epona_os.Base.{
  ℕ, zero, suc, ◌+◌, ◌-◌, ◌*◌, ◌%◌, ◌^◌, ◌<◌, ◌≡◌, refl, Bool, true, false, ◌&&◌, ◌||◌, not, Option,
  none, some, List, [], ◌∷◌, arith, Arr, upd, ltb, leb, ◌==◌, if◌then◌else◌, write_bytes,
}

abbrev pub heap_size : ℕ
heap_size = 0x10000

-- `sizeof(block_t)`
abbrev pub block_header : ℕ
block_header = 16

-- `block_t`. `next` is the address of a block, 0 for NULL.
pub record Block : Type 0 where
  pub size : ℕ
  pub free : Bool
  pub next : ℕ

-- The static variables, and the blocks at their addresses.
pub record UserHeap : Type 0 where
  pub base : ℕ
  pub end : ℕ
  pub inited : Bool
  pub blocks : ℕ → Block

-- SYS_BRK
pub sys_brk : (addr : ℕ) → ℕ
sys_brk addr = 0

-- `heap_init`. `writable` says at which addresses the program may store; a store elsewhere is a page fault,
-- at which the kernel halts: none. It is asked where a block is made at the end of the memory that SYS_BRK
-- names; the other stores are inside memory that has been taken there.
pub heap_init : (writable : ℕ → Bool) → UserHeap → Option UserHeap
heap_init writable h =
    let cur_break = sys_brk 0 in
    if h.inited
    then some h
    else if not (writable cur_break)
    then none
    else some (record h {
      inited = true;
      base = cur_break;
      end = (cur_break + heap_size) % 2 ^ 64;
      blocks =
          upd h.blocks cur_break
            (record { size = heap_size - block_header; free = true; next = 0 });
    })

-- The loop of `find_free`, through at most `fuel` blocks; 0 for NULL.
pub find_free : (fuel cur size : ℕ) → (ℕ → Block) → ℕ
find_free zero cur size b = 0
find_free (suc fuel) cur size b =
    let rest = find_free fuel (b cur).next size b in
    if cur == 0 then 0 else if (b cur).free && leb size (b cur).size then cur else rest

pub split_block : (blk size : ℕ) → (ℕ → Block) → ℕ → Block
split_block blk size b =
    let new_blk = blk + block_header + size in
    let rest : Block = record {
      size = ((b blk).size - size - block_header) % 2 ^ 32;
      free = true;
      next = (b blk).next;
    } in
    if leb (size + block_header + 16) (b blk).size
    then (let b' = upd b new_blk rest in
        upd b' blk (record (b' blk) { next = new_blk; size = size }))
    else b

-- The loop to the last block, through at most `fuel` of them.
pub last_block : (fuel last : ℕ) → (ℕ → Block) → ℕ
last_block zero last b = last
last_block (suc fuel) last b =
    let rest = last_block fuel (b last).next b in
    if not (last == 0) && not ((b last).next == 0) then rest else last

-- The part of `malloc` that grows the heap: the block to take.
pub grow_heap : (writable : ℕ → Bool) (fuel size : ℕ) → UserHeap → Option (ℕ × UserHeap)
grow_heap writable fuel size h =
    let cur_break = sys_brk 0 in
    let need = block_header + size in
    let grow = if ltb heap_size need then need else heap_size in
    let h1 : UserHeap = record h { end = (cur_break + grow) % 2 ^ 64 } in
    let last = last_block fuel h.base h.blocks in
    let longer : Block = record (h.blocks last) { size = ((h.blocks last).size + grow) % 2 ^ 32 } in
    let made =
      upd h.blocks cur_break
        (record { size = (grow - block_header) % 2 ^ 32; free = true; next = 0 }) in
    if not (last == 0) && (h.blocks last).free
    then some (last, record h1 { blocks = upd h.blocks last longer })
    else if not (writable cur_break)
    then none
    else if not (last == 0)
    then some
        (cur_break, record h1 { blocks = upd made last (record (made last) { next = cur_break }) })
    else some (cur_break, record h1 { blocks = made; base = cur_break })

-- The block is split and taken.
abbrev pub take_free : (blk size : ℕ) → UserHeap → ℕ × UserHeap
take_free blk size h =
    let b = split_block blk size h.blocks in
    (blk + block_header, record h { blocks = upd b blk (record (b blk) { free = false }) })

-- `malloc`, for a list of fewer than `fuel` blocks; none where it faults.
pub malloc : (writable : ℕ → Bool) (fuel size : ℕ) → UserHeap → Option (ℕ × UserHeap)
malloc writable fuel size h0 = if size == 0 then some (0, h0) else elim (heap_init writable h0) [
  | none ↦ none
  | some h ↦
      let blk = find_free fuel h.base size h.blocks in
      if not (blk == 0)
      then some (take_free blk size h)
      else elim (grow_heap writable fuel size h) [
        | none ↦ none
        | some (grown, h') ↦ some (take_free grown size h')
      ]
]

-- The loop of `free`, for at most `fuel` steps.
pub coalesce_all : (fuel cur : ℕ) → (ℕ → Block) → ℕ → Block
coalesce_all zero cur b = b
coalesce_all (suc fuel) cur b =
    let next = (b cur).next in
    let joined = upd b cur (record (b cur) {
      size = ((b cur).size + block_header + (b next).size) % 2 ^ 32;
      next = (b next).next;
    }) in
    let merged = coalesce_all fuel cur joined in
    let passed = coalesce_all fuel next b in
    if cur == 0 || next == 0 then b else if (b cur).free && (b next).free then merged else passed

-- `free`
pub free_block : (fuel ptr : ℕ) → UserHeap → UserHeap
free_block fuel ptr h =
    let blk = ptr - block_header in
    let freed = upd h.blocks blk (record (h.blocks blk) { free = true }) in
    if ptr == 0 then h else record h { blocks = coalesce_all fuel h.base freed }

-- `calloc`
pub calloc :
    (writable : ℕ → Bool) (fuel count size : ℕ) → UserHeap → Arr → Option (ℕ × UserHeap × Arr)
calloc writable fuel count size h mem =
    let total = count * size % 2 ^ 32 in
    elim (malloc writable fuel total h) [
      | none ↦ none
      | some (p, h') ↦
          some (if p == 0 then (0, h', mem) else (p, h', write_bytes (zeros total) p mem))
    ]
  where
    zeros : ℕ → List ℕ
    zeros zero = []
    zeros (suc n) = 0 ∷ zeros n

-- Where address 0 cannot be written, the first `malloc` of at least one byte faults: SYS_BRK answers 0, so
-- this is where the heap is put.
malloc_faults :
    (writable : ℕ → Bool) (fuel size : ℕ) (h : UserHeap)
    → writable 0 ≡ false
    → h.inited ≡ false
    → 0 < size
    → malloc writable fuel size h ≡ none
unfolding malloc heap_init sys_brk
malloc_faults writable fuel size h w new pos =
    let e : (size == 0) ≡ false = ground arith in rw (e, new, w) refl
