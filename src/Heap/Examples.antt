-- ===== src/Heap/Examples.antt =====
-- mm/heap.c: a heap with two blocks.
use epona_os.Base.{
  ℕ, ◌+◌, ◌-◌, ◌^◌, ◌≡◌, refl, ◌⊎◌, true, false, none, some, [], ◌∷◌, arith, ◌==◌, if◌then◌else◌,
}
use epona_os.Heap.{Headers, Heap, block_size, grow, kmalloc, kfree, search, take_block, coalesce}
use epona_os.Heap.Carve.{Blocks, ChainAt, carve}
use epona_os.Heap.FirstFit.{needed, kmalloc_lem}

-- 64 bytes in use at 100, and 1000 free ones behind.
abbrev blocks : Heap
blocks = record {
  headers = λ i.
      if i == 100
      then record { size = 64; free = false; next = 164; prev = 0 }
      else record { size = 1000; free = true; next = 0; prev = 100 };
  start = 100;
  last = 164;
  virt_top = 1164;
  frames = record { bitmap = λ _. 255; total_frames = 0; used_frames = 0 };
}

-- 10 bytes are rounded to 16 and get 25 of header, which is less than the smallest block.
kmalloc_runs : (kmalloc 9 10 blocks).0 ≡ 189
unfolding kmalloc search block_size take_block
kmalloc_runs = refl

-- Freed again, the block and what was split off are one.
kfree_runs : ((kfree 189 (kmalloc 9 10 blocks).1).headers 164).size ≡ 1000
unfolding kmalloc search block_size take_block kfree coalesce
kfree_runs = refl

-- A request of nearly 2 ^ 64 bytes wraps around and gets the smallest block.
kmalloc_wraps : block_size (2 ^ 64 - 1) ≡ 64
unfolding block_size
kmalloc_wraps = refl

kmalloc_lem_example :
    ((carve (needed 10) ((64, false) ∷ (1000, true) ∷ []) ≡ none)
      × (kmalloc 9 10 blocks ≡ grow (needed 10) blocks))
    ⊎ ((off : ℕ) × (bs' : Blocks) × (h' : Headers) × (carve
            (needed 10)
            ((64, false) ∷ (1000, true) ∷ [])
          ≡ some (off, bs'))
        × (kmalloc 9 10 blocks ≡ (100 + off + 25, record blocks { headers = h' }))
        × ChainAt h' 100 0 bs')
kmalloc_lem_example =
    kmalloc_lem 9 10 (64, false) ((1000, true) ∷ []) blocks (omega arith) (omega arith)
      (omega arith) (omega arith) (refl, omega arith, (refl, omega arith, _))
