-- ===== src/Paging/Examples.antt =====
-- mm/paging.c: runs on a small memory, and the theorems at it.
use epona_os.Base.{
  ℕ, suc, ◌≡◌, refl, ◌⊎◌, inl, inr, true, false, ◌&&◌, arith, ◌==◌, if◌then◌else◌, Bool-cases,
  if_elim,
}
use epona_os.Pmm.{Pmm, bm_test, bm_set, alloc, alloc_loop}
use epona_os.Pmm.Count.{IsValid, count_used}
use epona_os.Paging.{
  Paging, minus_one, page_addr, is_present, is_huge, get_or_create_table, mark_user, split_huge,
  map_in_pd, map_in_pdpt, map_page_on, next_table, get_in_pt, get_in_pd, get_in_pdpt, get_phys_on,
  clone_current,
}
use epona_os.Paging.Tree.{IsTree}
use epona_os.Paging.Growth.{Grown, Full}
use epona_os.Paging.Mapping.{map_page_on_lem}
use epona_os.Paging.Sharing.{clone_shares}

-- Sixteen frames, of which 0 to 7 are in use.
abbrev frames : Pmm
frames = record { bitmap = λ i. if i == 0 then 255 else 0; total_frames = 16; used_frames = 8 }

frames-IsValid : IsValid frames
unfolding count_used bm_test
frames-IsValid = record { bytes = λ i. ground arith; small = omega arith; counted = refl }

-- Two tables.
abbrev kernel : Paging
kernel = record {
  tables = λ t i. if t == 0x1000 && i == 0 then 0x2003 else 0;
  pml4 = 0x1000;
  pmm = frames;
}

abbrev levels : ℕ → ℕ
levels t = if t == 0x1000 then 4 else if t == 0x2000 then 3 else 0

kernel-IsTree : IsTree levels kernel
unfolding bm_test
kernel-IsTree = record {
  frames = frames-IsValid;
  null = refl;
  low = refl;
  in_use = λ t table. elim (Bool-cases (t == 0x1000)) [
    | inl first ↦ let at : t ≡ 0x1000 = ground (arith, first) in rw at refl
    | inr other ↦ let at : t ≡ 0x2000 = ground (arith, other, table) in rw at refl
  ];
  entries = λ t i n at.
      let P : ℕ → Type 0 =
        λ e. is_present e ≡ true → (is_huge e && n == 0) ≡ false → levels (page_addr e) ≡ suc n in
      if_elim P (t == 0x1000 && i == 0)
        (λ first here plain. let high : n ≡ 2 = ground (arith, first, at) in rw high refl)
        (λ other here plain. absurd (ground (arith, here)));
}

maps : get_phys_on 0x1000 0x400123 (map_page_on 0x1000 0x400000 0x9000 6 kernel).1 ≡ 0x9123
unfolding map_page_on map_in_pdpt map_in_pd get_or_create_table mark_user split_huge get_phys_on
    get_in_pdpt get_in_pd get_in_pt next_table alloc alloc_loop bm_test bm_set
maps = refl

map_page_on_lem_example :
    (lvl' : ℕ → ℕ) × Grown 4 levels lvl' kernel (map_page_on 0x1000 0x400123 0x9000 6 kernel).1
    × ((((map_page_on 0x1000 0x400123 0x9000 6 kernel).0 ≡ minus_one)
          × Full (map_page_on 0x1000 0x400123 0x9000 6 kernel).1.pmm)
        ⊎ (((map_page_on 0x1000 0x400123 0x9000 6 kernel).0 ≡ 0)
            × (get_phys_on 0x1000 0x400123 (map_page_on 0x1000 0x400123 0x9000 6 kernel).1
                ≡ 0x9123)))
map_page_on_lem_example =
    map_page_on_lem 0x1000 0x400123 0x9000 6 levels kernel (omega arith) kernel-IsTree refl

clones : (clone_current kernel).0 ≡ 0x8000
unfolding clone_current alloc alloc_loop bm_test
clones = refl

maps_in_clone :
    (map_page_on (clone_current kernel).0 0x400123 0xf000 6 (clone_current kernel).1).0 ≡ 0
unfolding clone_current map_page_on map_in_pdpt map_in_pd get_or_create_table mark_user split_huge
    alloc alloc_loop bm_test bm_set
maps_in_clone = refl

clone_shares_example :
    get_phys_on 0x1000 0x400123
      (map_page_on (clone_current kernel).0 0x400123 0xf000 6 (clone_current kernel).1).1
    ≡ 0xf123
clone_shares_example =
    clone_shares 0x400123 0xf000 6 levels kernel (omega arith) kernel-IsTree refl refl
      (omega (arith, clones)) maps_in_clone
