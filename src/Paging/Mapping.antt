-- ===== src/Paging/Mapping.antt =====
-- mm/paging.c: a page that `paging_map_page_on` maps is what `paging_get_phys_on` finds.
use epona_os.Base.{
  ℕ, ◌+◌, ◌*◌, ◌%◌, ◌^◌, ◌<◌, bit_or, ◌≡◌, refl, sym, ap, ◌∙◌, ◌≢◌, ◌⊎◌, inl, inr, Bool, true,
  false, not, Option, none, some, arith, upd, upd_ne, subst, ◌==◌, if◌then◌else◌, if_elim,
}
use epona_os.Pmm
use epona_os.Pmm.{Pmm, page_size}
use epona_os.Pmm.Alloc.{alloc_first_free}
use epona_os.Paging.{
  Paging, minus_one, idx_pml4, idx_pdpt, idx_pd, idx_pt, page_addr, is_present, is_huge,
  table_entry, page_present, set_entry, get_or_create_table, mark_user, split_huge, map_in_pd,
  map_in_pdpt, map_page_on, next_table, get_in_pt, get_in_pd, get_in_pdpt, get_phys_on,
}
use epona_os.Paging.Bits.{page_entry_lem}
use epona_os.Paging.Tree.{IsTree, set_entry-IsTree, fresh_frame}
use epona_os.Paging.Growth.{
  Grown, Grown-join, Full, Leads, entry_at, mark_user-huge, mark_user-Grown,
}
use epona_os.Paging.Enter.{Grown-self, no_frame, new_table, get_or_create_table_lem}
use epona_os.Paging.Descend.{Mapped, Leads-next, descend}

-- After `split_huge` the entry is no huge page, unless there was no frame.
abbrev Split : (pd i : ℕ) (lvl : ℕ → ℕ) (s : Paging) → Bool × Paging → Type 0
Split pd i lvl s (split, s') =
    (lvl' : ℕ → ℕ) × Grown 2 lvl lvl' s s'
    × (((split ≡ false) × Full s'.pmm) ⊎ ((split ≡ true) × (is_huge (s'.tables pd i) ≡ false)))

split_huge_lem :
    (pd i flags : ℕ) (lvl : ℕ → ℕ) (s : Paging)
    → IsTree lvl s
    → lvl pd ≡ 2
    → Split pd i lvl s (split_huge pd i flags s)
unfolding split_huge
split_huge_lem pd i flags lvl s tree at =
    let e : ℕ = s.tables pd i in
    let P : Bool × Paging → Type 0 = Split pd i lvl s in
    if_elim P (not (is_huge e))
      (λ small. (lvl, Grown-self 2 lvl s tree, inr (refl, ground (arith, small))))
      (λ huge. elim (alloc_first_free s.pmm tree.frames) [
        | inl (null, same, all) ↦
            let is_null : ((Pmm.alloc s.pmm).0 == 0) ≡ true = ground (arith, null) in
            rw is_null (
              lvl,
              no_frame 2 lvl s (Pmm.alloc s.pmm).1 tree same,
              inl (refl, subst Full (sym same) (λ g lt. all g (omega arith) lt)),
            )
        | inr (f, lt, got, taken, before) ↦
            let pos : f * page_size ≢ 0 = fresh_frame lvl s (Pmm.alloc s.pmm).1 f tree taken in
            let not_null : ((Pmm.alloc s.pmm).0 == 0) ≡ false = ground (arith, got, pos) in
            let (grown, leads) =
              new_table f 0 pd i flags (λ j. table_entry (page_addr e + j * page_size) flags)
                (Pmm.alloc s.pmm).1 lvl s tree taken lt pos at
                (λ j k deep. absurd (omega (arith, deep))) in
            rw (not_null, got)
              (upd lvl (f * page_size) 1, grown, inr (refl, ground (arith, leads.plain)))
      ])

-- The entry of the page goes into the page table.
write_page :
    (pd pt virt phys flags : ℕ) (lvl : ℕ → ℕ) (s : Paging)
    → flags < page_size
    → IsTree lvl s
    → lvl pd ≡ 2
    → lvl pt ≡ 1
    → Leads 0 pd (idx_pd virt) pt s
    → Grown 2 lvl lvl s
        (set_entry pt (idx_pt virt) (bit_or (page_addr phys) (bit_or flags page_present)) s)
      × (get_in_pd pd virt
            (set_entry pt (idx_pt virt) (bit_or (page_addr phys) (bit_or flags page_present)) s)
          ≡ bit_or (page_addr phys) (virt % 2 ^ 12))
unfolding get_in_pd get_in_pt
write_page pd pt virt phys flags lvl s low tree at at_pt leads =
    let e : ℕ = bit_or (page_addr phys) (bit_or flags page_present) in
    let s' : Paging = set_entry pt (idx_pt virt) e s in
    let same : s'.tables pd ≡ s.tables pd =
      upd_ne s.tables pt pd (upd (s.tables pt) (idx_pt virt) e)
        (λ eq. omega (arith, at, at_pt, ap lvl eq)) in
    let small : is_huge (s'.tables pd (idx_pd virt)) ≡ false =
      ap (λ (b : ℕ → ℕ). is_huge (b (idx_pd virt))) same ∙ ground (arith, leads.plain) in
    let next : next_table pd (idx_pd virt) s' ≡ some pt =
      Leads-next 0 pd (idx_pd virt) pt s s' leads same in
    let entry : s'.tables pt (idx_pt virt) ≡ e = entry_at pt (idx_pt virt) e s in
    let says = page_entry_lem phys flags low in
    let found : get_in_pt pt virt s' ≡ bit_or (page_addr phys) (virt % 2 ^ 12) =
      ap (λ e. if is_present e then bit_or (page_addr e) (virt % 2 ^ 12) else 0) entry
      ∙ ap (λ b. if b then bit_or (page_addr e) (virt % 2 ^ 12) else 0) says.1
      ∙ ap (λ a. bit_or a (virt % 2 ^ 12)) says.0 in
    (
      record {
        tree =
            set_entry-IsTree pt (idx_pt virt) e lvl s tree
              (λ n high here plain. absurd (omega (arith, at_pt, high)));
        levels = λ t table. refl;
        keep = λ t high.
            upd_ne s.tables pt t (upd (s.tables pt) (idx_pt virt) e)
              (λ eq. omega (arith, at_pt, ap lvl eq, high));
      },
      ap
            (λ b.
              if b
              then bit_or (page_addr (s'.tables pd (idx_pd virt))) (virt % 2 ^ 21)
              else elim (next_table pd (idx_pd virt) s') [
                | none ↦ 0
                | some pt ↦ get_in_pt pt virt s'
              ])
            small
          ∙ ap (λ (o : Option ℕ). elim o [ none ↦ 0 | some pt ↦ get_in_pt pt virt s' ]) next
          ∙ found,
    )

-- The page directory and the page table.
map_in_pd_lem :
    (pd virt phys flags : ℕ) (lvl : ℕ → ℕ) (s : Paging)
    → flags < page_size
    → IsTree lvl s
    → lvl pd ≡ 2
    → Mapped 2 lvl s
        (λ t s. get_in_pd t virt s)
        (bit_or (page_addr phys) (virt % 2 ^ 12))
        pd
        (map_in_pd pd virt phys flags s)
unfolding map_in_pd
map_in_pd_lem pd virt phys flags lvl s low tree at =
    let i : ℕ = idx_pd virt in
    let r = split_huge pd i flags s in
    let (lvl1, grown, split) = split_huge_lem pd i flags lvl s tree at in
    let s1 : Paging = mark_user pd i flags r.1 in
    let at1 : lvl1 pd ≡ 2 = grown.levels pd (λ none_there. omega (arith, at, none_there)) ∙ at in
    let marked : Grown 2 lvl1 lvl1 r.1 s1 = mark_user-Grown 2 pd i flags lvl1 r.1 grown.tree at1 in
    let r2 = get_or_create_table pd i flags s1 in
    let e' : ℕ = bit_or (page_addr phys) (bit_or flags page_present) in
    let P : ℕ × Paging → Type 0 =
      Mapped 2 lvl s (λ t s. get_in_pd t virt s) (bit_or (page_addr phys) (virt % 2 ^ 12)) pd in
    elim split [
      | inl (no_room, full) ↦
          if_elim P (not r.0) (λ here. (lvl1, grown, inl (refl, full)))
            (λ here. absurd (ground (arith, no_room, here)))
      | inr (ok, small) ↦
          if_elim P (not r.0) (λ here. absurd (ground (arith, ok, here)))
            (λ here.
              let (lvl2, grown2, found) =
                get_or_create_table_lem 0 pd i flags lvl1 s1 marked.tree at1
                  (ground (arith, mark_user-huge pd i flags r.1, small)) in
              let all : Grown 2 lvl lvl2 s r2.1 =
                Grown-join 2 2 lvl lvl1 lvl2 s r.1 r2.1 (omega arith) grown
                  (Grown-join 2 2 lvl1 lvl1 lvl2 r.1 s1 r2.1 (omega arith) marked grown2) in
              elim found [
                | inl (null, full) ↦
                    if_elim P (r2.0 == 0) (λ e. (lvl2, all, inl (refl, full)))
                      (λ e. absurd (ground (arith, null, e)))
                | inr (pos, below, leads) ↦
                    if_elim P (r2.0 == 0) (λ e. absurd (pos (ground (arith, e))))
                      (λ e.
                        let at2 : lvl2 pd ≡ 2 =
                          grown2.levels pd (λ none_there. omega (arith, at1, none_there)) ∙ at1 in
                        let (page, there) =
                          write_page pd r2.0 virt phys flags lvl2 r2.1 low grown2.tree at2 below
                            leads in
                        (
                          lvl2,
                          Grown-join 2 2 lvl lvl2 lvl2 s r2.1 (set_entry r2.0 (idx_pt virt) e' r2.1)
                              (omega arith) all page,
                          inr (refl, there),
                        ))
              ])
    ]

pub map_in_pdpt_lem :
    (pdpt virt phys flags : ℕ) (lvl : ℕ → ℕ) (s : Paging)
    → flags < page_size
    → IsTree lvl s
    → lvl pdpt ≡ 3
    → Mapped 3 lvl s
        (λ t s. get_in_pdpt t virt s)
        (bit_or (page_addr phys) (virt % 2 ^ 12))
        pdpt
        (map_in_pdpt pdpt virt phys flags s)
unfolding map_in_pdpt get_in_pdpt
map_in_pdpt_lem pdpt virt phys flags lvl s low tree at =
    descend 0 pdpt (idx_pdpt virt) flags (λ pd s. map_in_pd pd virt phys flags s)
      (λ pd s. get_in_pd pd virt s) (bit_or (page_addr phys) (virt % 2 ^ 12)) lvl s tree at
      (λ pd lvl s tree at. map_in_pd_lem pd virt phys flags lvl s low tree at)

-- In a tree of page tables, `paging_map_page_on` of a page, with flags below the frame, either fails with -1, and then
-- no frame is left, or returns 0, and then `paging_get_phys_on` finds the frame and the offset in it for the
-- address. In both cases the tables are a tree again, which has the tables that were there on their levels.
pub map_page_on_lem :
    (pml4 virt phys flags : ℕ) (lvl : ℕ → ℕ) (s : Paging)
    → flags < page_size
    → IsTree lvl s
    → lvl pml4 ≡ 4
    → (lvl' : ℕ → ℕ) × Grown 4 lvl lvl' s (map_page_on pml4 virt phys flags s).1
      × ((((map_page_on pml4 virt phys flags s).0 ≡ minus_one)
            × Full (map_page_on pml4 virt phys flags s).1.pmm)
          ⊎ (((map_page_on pml4 virt phys flags s).0 ≡ 0)
              × (get_phys_on pml4 virt (map_page_on pml4 virt phys flags s).1
                  ≡ bit_or (page_addr phys) (virt % 2 ^ 12))))
unfolding map_page_on get_phys_on
map_page_on_lem pml4 virt phys flags lvl s low tree at =
    descend 1 pml4 (idx_pml4 virt) flags (λ pdpt s. map_in_pdpt pdpt virt phys flags s)
      (λ pdpt s. get_in_pdpt pdpt virt s) (bit_or (page_addr phys) (virt % 2 ^ 12)) lvl s tree at
      (λ pdpt lvl s tree at. map_in_pdpt_lem pdpt virt phys flags lvl s low tree at)
