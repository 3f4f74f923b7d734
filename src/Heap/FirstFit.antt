-- ===== src/Heap/FirstFit.antt =====
-- mm/heap.c: kmalloc on the list of blocks.
use epona_os.Base.{
  ℕ, ◌+◌, ◌*◌, ◌/◌, ◌^◌, ◌≤◌, ◌<◌, ◌≡◌, refl, ◌⊎◌, inl, inr, Bool, false, Option, none, some, ◌∷◌,
  arith, subst, length, ltb, ◌==◌, if◌then◌else◌,
}
use epona_os.Heap.{Headers, Heap, min_block, header_size, block_size, search, grow, kmalloc}
use epona_os.Heap.Carve.{Blocks, ChainAt, carve, search_lem}

block_size-least : (size : ℕ) → min_block ≤ block_size size
unfolding block_size
block_size-least size = ground arith

kmalloc-search :
    (fuel size : ℕ) (g : Heap) {r : Option (ℕ × Headers)}
    → 0 < size
    → search fuel g.start (block_size size) g.headers ≡ r
    → kmalloc fuel size g ≡ elim r [
      | none ↦ grow (block_size size) g
      | some (curr, headers) ↦ (curr + header_size, record g { headers = headers })
    ]
unfolding kmalloc
kmalloc-search fuel size g {r} pos e =
    let z : (size == 0) ≡ false = ground arith in rw (z, e, kmalloc) refl

-- What a request needs: its size rounded up to sixteen bytes, with the header of 25 bytes, and at least 64.
abbrev pub needed : ℕ → ℕ
needed size =
    let with_header = (size + 15) / 16 * 16 + 25 in if ltb with_header 64 then 64 else with_header

block_size-needed : (size : ℕ) → size + 40 < 2 ^ 64 → block_size size ≡ needed size
unfolding block_size
block_size-needed size lt = ground (arith, lt)

-- What `kmalloc` does with a request, for the number of bytes that a block must have.
abbrev FirstFit : (total fuel size : ℕ) → Blocks → Heap → Type 0
FirstFit total fuel size bs g =
    ((carve total bs ≡ none) × (kmalloc fuel size g ≡ grow total g))
    ⊎ ((off : ℕ) × (bs' : Blocks) × (h' : Headers) × (carve total bs ≡ some (off, bs'))
        × (kmalloc fuel size g ≡ (g.start + off + 25, record g { headers = h' }))
        × ChainAt h' g.start 0 bs')

kmalloc-FirstFit :
    (fuel size : ℕ) (b : ℕ × Bool) (bs : Blocks) (g : Heap)
    → 0 < size
    → 0 < g.start
    → length (b ∷ bs) < fuel
    → ChainAt g.headers g.start 0 (b ∷ bs)
    → FirstFit (block_size size) fuel size (b ∷ bs) g
kmalloc-FirstFit fuel size b bs g pos start lt c =
    elim (search_lem fuel g.start 0 (block_size size) (b ∷ bs) g.headers start
      (block_size-least size) lt c) [
        | inl (none_c, none_s) ↦ inl (none_c, kmalloc-search fuel size g pos none_s)
        | inr (off, bs', t) ↦
            inr (off, bs', t.h', t.carved, kmalloc-search fuel size g pos t.result, t.taken.chain)
      ]

-- On a heap whose blocks lie one behind the other and are linked both ways, `kmalloc` takes the first free
-- block that has room for the request, rounded up to 16 bytes, and its header of 25 bytes, splits it when
-- what is left is enough for another block, and returns the address behind the header; the blocks again lie
-- one behind the other and are linked both ways. Only when there is no such block the heap grows, by what
-- the request needs. The request is of at least one byte and one whose rounding does not wrap around.
pub kmalloc_lem :
    (fuel size : ℕ) (b : ℕ × Bool) (bs : Blocks) (g : Heap)
    → 0 < size
    → size + 40 < 2 ^ 64
    → 0 < g.start
    → length (b ∷ bs) < fuel
    → ChainAt g.headers g.start 0 (b ∷ bs)
    → ((carve (needed size) (b ∷ bs) ≡ none) × (kmalloc fuel size g ≡ grow (needed size) g))
      ⊎ ((off : ℕ) × (bs' : Blocks) × (h' : Headers) × (carve (needed size) (b ∷ bs)
            ≡ some (off, bs'))
          × (kmalloc fuel size g ≡ (g.start + off + 25, record g { headers = h' }))
          × ChainAt h' g.start 0 bs')
kmalloc_lem fuel size b bs g pos fits start lt c =
    subst (λ (total : ℕ). FirstFit total fuel size (b ∷ bs) g) (block_size-needed size fits)
      (kmalloc-FirstFit fuel size b bs g pos start lt c)
