-- ===== src/Console/Cells.antt =====
-- drivers/gpu.c: what the loops over the cells of the text screen write.
use epona_os.Base.{
  ℕ, zero, suc, ◌+◌, ◌<◌, ◌≡◌, ◌⊎◌, inl, inr, Bool, ◌&&◌, arith, Arr, upd, ltb, leb, ◌==◌,
  if◌then◌else◌, Bool-cases,
}
use epona_os.Console.{fill_cells, copy_up, vga_cols}

-- Cell `j` is one of the `n` cells from `i` on.
abbrev pub within : (n i j : ℕ) → Bool
within n i j = leb i j && ltb j (i + n)

-- The loop that fills writes its cells and no other.
pub fill_cells_lem :
    (n i cell : ℕ) (mem : Arr) (j : ℕ)
    → fill_cells n i cell mem j ≡ (if within n i j then cell else mem j)
unfolding fill_cells
fill_cells_lem zero i cell mem j = ground arith
fill_cells_lem (suc n) i cell mem j =
    ground (arith, fill_cells_lem n (i + 1) cell (upd mem i cell) j)

-- The loop that copies gives each of its cells what stood 80 cells further on.
pub copy_up_lem :
    (n i : ℕ) (mem : Arr) (j : ℕ)
    → copy_up n i mem j ≡ (if within n i j then mem (j + vga_cols) else mem j)
unfolding copy_up
copy_up_lem zero i mem j = ground arith
copy_up_lem (suc n) i mem j =
    let m : Arr = upd mem i (mem (i + vga_cols)) in
    let same : m (j + vga_cols) ≡ mem (j + vga_cols) ⊎ (j < i) =
      elim (Bool-cases (i == j + vga_cols)) [
        | inl e ↦ inr (ground arith)
        | inr e ↦ inl (ground arith)
      ] in
    ground (arith, copy_up_lem n (i + 1) m j, same)
