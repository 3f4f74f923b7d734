-- ===== src/Fat/Free.antt =====
-- fs/fat.c: the search for a free cluster, which reads a sector of the table only once.
use epona_os.Base.{
  ℕ, zero, suc, ◌+◌, ◌*◌, ◌/◌, ◌%◌, ◌^◌, ◌≤◌, ◌<◌, ◌≡◌, refl, sym, ap, ◌∙◌, ◌⊎◌, inl, inr, false,
  ◌&&◌, not, arith, Arr, ◌==◌, if◌then◌else◌, if_elim,
}
use native.Mathlib.Nat.{suc-mul}
use epona_os.Fat.{
  Volume, Drive, fat_eoc, word_at, entry_sector, ent_offset, next_cluster, set_cluster,
  total_clusters, alloc_cluster_loop, alloc_cluster,
}
use epona_os.Fat.Table.{IsFat, Answers, InTable, next_cluster_lem}

-- The search that asks for every cluster anew.
unfoldable pub first_free : Volume → (n c : ℕ) → Drive → ℕ × Drive
first_free v zero c d = (0, d)
first_free v (suc n) c d =
    let rest = first_free v n (c + 1) d in
    if next_cluster v c d == 0 then (c, (set_cluster v c fat_eoc d).1) else rest

-- The buffer has the sector that it is said to have, or no sector of the table.
abbrev Loaded : Volume → (loaded_sector : ℕ) (buf : Arr) → Drive → Type 0
Loaded v loaded buf d = (v.fat_start + v.sectors_per_fat ≤ loaded) ⊎ (buf ≡ d.sectors loaded)

alloc_cluster_loop_lem :
    (v : Volume) (extra n c loaded : ℕ) (buf : Arr) (d : Drive)
    → IsFat v extra
    → Answers d
    → c + n ≤ v.sectors_per_fat * 128
    → c + n ≤ 2 ^ 30
    → Loaded v loaded buf d
    → alloc_cluster_loop v n c loaded buf d ≡ first_free v n c d
unfolding alloc_cluster_loop first_free
alloc_cluster_loop_lem v extra zero c loaded buf d fat a inside small l = refl
alloc_cluster_loop_lem v extra (suc n) c loaded buf d fat a inside small l =
    let more : suc extra * v.sectors_per_fat ≡ extra * v.sectors_per_fat + v.sectors_per_fat =
      suc-mul extra v.sectors_per_fat in
    let o : ent_offset v c ≡ c * 4 % 2 ^ 32 % 512 = ap (λ b. c * 4 % 2 ^ 32 % b) fat.sector_size in
    let s : entry_sector v c ≡ c * 4 % 2 ^ 32 / 512 =
      ap (λ b. c * 4 % 2 ^ 32 / b) fat.sector_size in
    let x : ℕ = (v.fat_start + c * 4 % 2 ^ 32 / 512) % 2 ^ 32 in
    let in_table : InTable v c = (omega (arith, small), omega (arith, s, inside)) in
    let at : x ≡ v.fat_start + entry_sector v c = omega (arith, s, inside, small, fat.fits, more) in
    let buf' : Arr = if x == loaded then buf else d.sectors x in
    let read : buf' ≡ d.sectors x =
      if_elim (λ (b : Arr). b ≡ d.sectors x) (x == loaded)
        (λ e.
          let same : x ≡ loaded = ground (arith, e) in
          elim l [
            | inl far ↦ absurd (omega (arith, far, same, at, in_table.1))
            | inr held ↦ held ∙ ap d.sectors (sym same)
          ])
        (λ e. refl) in
    let entry : word_at buf' (c * 4 % 2 ^ 32 % 512) % 2 ^ 28 ≡ next_cluster v c d =
      ap (λ (b : Arr). word_at b (c * 4 % 2 ^ 32 % 512) % 2 ^ 28) (read ∙ ap d.sectors at)
      ∙ ap (λ i. word_at (d.sectors (v.fat_start + entry_sector v c)) i % 2 ^ 28) (sym o)
      ∙ sym (next_cluster_lem v extra c d fat in_table a.reads) in
    let ok : (not (x == loaded) && not (d.readable x)) ≡ false = ground (arith, a.reads x) in
    let rest : alloc_cluster_loop v n (c + 1) x buf' d ≡ first_free v n (c + 1) d =
      alloc_cluster_loop_lem v extra n (c + 1) x buf' d fat a (omega arith) (omega arith)
        (inr read) in
    let found : ℕ × Drive = (c, (set_cluster v c fat_eoc d).1) in
    ap
      (λ b.
        if b
        then (0, d)
        else if word_at buf' (c * 4 % 2 ^ 32 % 512) % 2 ^ 28 == 0
        then found
        else alloc_cluster_loop v n (c + 1) x buf' d)
      ok
    ∙ ap (λ e. if e == 0 then found else alloc_cluster_loop v n (c + 1) x buf' d) entry
    ∙ ap (λ (r : ℕ × Drive). if next_cluster v c d == 0 then found else r) rest

-- On a drive that answers, with a table that has an entry for every cluster, `fat_alloc_cluster` is the search that reads
-- each entry by `fat_next_cluster`, from cluster 2 on: keeping the last sector in a buffer changes nothing,
-- whatever the buffer holds at first.
pub alloc_cluster_lem :
    (v : Volume) (extra : ℕ) (buf : Arr) (d : Drive)
    → IsFat v extra
    → Answers d
    → total_clusters v + 2 ≤ v.sectors_per_fat * 128
    → total_clusters v + 2 ≤ 2 ^ 30
    → v.fat_start + v.sectors_per_fat < 2 ^ 32
    → alloc_cluster v buf d ≡ first_free v (total_clusters v) 2 d
unfolding alloc_cluster
alloc_cluster_lem v extra buf d fat a inside small low =
    alloc_cluster_loop_lem v extra (total_clusters v) 2 0xffffffff buf d fat a (omega arith)
      (omega arith) (inl (omega arith))
