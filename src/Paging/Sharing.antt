-- ===== src/Paging/Sharing.antt =====
-- mm/paging.c: `paging_clone_current` copies the highest table only.
use epona_os.Base.{
  ℕ, ◌*◌, ◌%◌, ◌^◌, ◌<◌, bit_or, ◌≡◌, refl, sym, ap, ◌∙◌, ◌≢◌, ◌⊎◌, inl, inr, true, false, Option,
  none, some, arith, upd, upd_self, upd_ne, ◌==◌, if_elim,
}
use epona_os.Pmm
use epona_os.Pmm.{Pmm, page_size}
use epona_os.Pmm.Alloc.{alloc_first_free}
use epona_os.Paging.{
  Paging, idx_pml4, page_addr, is_present, get_or_create_table, mark_user, map_in_pdpt, map_page_on,
  next_table, get_in_pdpt, get_phys_on, clone_current,
}
use epona_os.Paging.Tree.{IsTree, fresh, fresh_frame, add_table}
use epona_os.Paging.Growth.{Leads, mark_user-keep, mark_user-Grown}
use epona_os.Paging.Descend.{Leads-next}
use epona_os.Paging.Mapping.{map_in_pdpt_lem}

-- Once the highest entry is there, mapping starts with the table that it leads to.
map_page_on-present :
    (pml4 virt phys flags : ℕ) (s : Paging)
    → is_present (s.tables pml4 (idx_pml4 virt)) ≡ true
    → page_addr (s.tables pml4 (idx_pml4 virt)) ≢ 0
    → map_page_on pml4 virt phys flags s
      ≡ map_in_pdpt
          (page_addr (s.tables pml4 (idx_pml4 virt)))
          virt
          phys
          flags
          (mark_user pml4 (idx_pml4 virt) flags s)
unfolding map_page_on get_or_create_table
map_page_on-present pml4 virt phys flags s here pos =
    let not_null : (page_addr (s.tables pml4 (idx_pml4 virt)) == 0) ≡ false = ground (arith, pos) in
    rw (here, get_or_create_table, not_null) refl

-- A page that is mapped in a second table of the highest level, which has the same entry for it.
map_in_copy :
    (pml4 copy virt phys flags : ℕ) (lvl : ℕ → ℕ) (s : Paging)
    → flags < page_size
    → IsTree lvl s
    → lvl pml4 ≡ 4
    → lvl copy ≡ 4
    → copy ≢ pml4
    → s.tables copy ≡ s.tables pml4
    → is_present (s.tables pml4 (idx_pml4 virt)) ≡ true
    → (map_page_on copy virt phys flags s).0 ≡ 0
    → get_phys_on pml4 virt (map_page_on copy virt phys flags s).1
      ≡ bit_or (page_addr phys) (virt % 2 ^ 12)
unfolding get_phys_on
map_in_copy pml4 copy virt phys flags lvl s low tree at at_copy ne same here done =
    let i : ℕ = idx_pml4 virt in
    let pdpt : ℕ = page_addr (s.tables pml4 i) in
    let below : lvl pdpt ≡ 3 = tree.entries pml4 i 2 at here (ground arith) in
    let pos : pdpt ≢ 0 = λ null. omega (arith, sym below ∙ ap lvl null ∙ tree.null) in
    let leads : Leads 2 pml4 i pdpt s = record {
      present = here;
      to = refl;
      plain = ground arith;
    } in
    let starts : map_page_on copy virt phys flags s
        ≡ map_in_pdpt (page_addr (s.tables copy i)) virt phys flags (mark_user copy i flags s) =
      map_page_on-present copy virt phys flags s (ap (λ (b : ℕ → ℕ). is_present (b i)) same ∙ here)
        (λ null. pos (sym (ap (λ (b : ℕ → ℕ). page_addr (b i)) same) ∙ null)) in
    let s1 : Paging = mark_user copy i flags s in
    let r = map_in_pdpt pdpt virt phys flags s1 in
    let result : map_page_on copy virt phys flags s ≡ r =
      starts ∙ ap (λ (b : ℕ → ℕ). map_in_pdpt (page_addr (b i)) virt phys flags s1) same in
    let marked = mark_user-Grown 4 copy i flags lvl s tree at_copy in
    let (lvl', grown, found) = map_in_pdpt_lem pdpt virt phys flags lvl s1 low marked.tree below in
    let kept : r.1.tables pml4 ≡ s.tables pml4 =
      grown.keep pml4 (omega (arith, at)) ∙ mark_user-keep copy i flags pml4 s ne in
    let next : next_table pml4 i r.1 ≡ some pdpt = Leads-next 2 pml4 i pdpt s r.1 leads kept in
    elim found [
      | inl (failed, full) ↦
          absurd (omega (arith, sym failed ∙ sym (ap (λ (x : ℕ × Paging). x.0) result) ∙ done))
      | inr (ok, there) ↦
          ap (λ (x : ℕ × Paging). get_phys_on pml4 virt x.1) result
          ∙ ap (λ (o : Option ℕ). elim o [ none ↦ 0 | some u ↦ get_in_pdpt u virt r.1 ]) next
          ∙ there
    ]

-- The copy of the highest table is a second root of the tree.
abbrev Cloned : Paging → ℕ × Paging → Type 0
Cloned s (c, s') =
    (c ≡ 0)
    ⊎ ((lvl' : ℕ → ℕ) × IsTree lvl' s'
        × (lvl' s.pml4 ≡ 4)
        × (lvl' c ≡ 4)
        × (c ≢ s.pml4)
        × (s'.tables c ≡ s'.tables s.pml4)
        × (s'.tables s.pml4 ≡ s.tables s.pml4))

clone_current_lem :
    (lvl : ℕ → ℕ) (s : Paging) → IsTree lvl s → lvl s.pml4 ≡ 4 → Cloned s (clone_current s)
unfolding clone_current
clone_current_lem lvl s tree at =
    let P : ℕ × Paging → Type 0 = Cloned s in
    if_elim P ((Pmm.alloc s.pmm).0 == 0) (λ null. inl refl)
      (λ some_frame. elim (alloc_first_free s.pmm tree.frames) [
        | inl (null, same, all) ↦ absurd (ground (arith, null, some_frame))
        | inr (f, lt, got, taken, before) ↦
            let new : ℕ = f * page_size in
            let pmm : Pmm = (Pmm.alloc s.pmm).1 in
            let body : ℕ → ℕ = s.tables s.pml4 in
            let pos : new ≢ 0 = fresh_frame lvl s pmm f tree taken in
            let no_table : lvl new ≡ 0 = fresh lvl s pmm f tree taken in
            let ne : new ≢ s.pml4 = λ same. omega (arith, at, sym (ap lvl same) ∙ no_table) in
            let kept : upd s.tables new body s.pml4 ≡ body = upd_ne s.tables new s.pml4 body ne in
            rw got (
              inr (
                upd lvl new 4,
                add_table f 4 body pmm lvl s tree taken pos
                    (λ j n high here plain. tree.entries s.pml4 j n (at ∙ high) here plain),
                upd_ne lvl new s.pml4 4 ne ∙ at,
                upd_self lvl new 4,
                ne,
                upd_self s.tables new body ∙ sym kept,
                kept,
              ))
      ])

-- The address space that `paging_clone_current` makes is not one of its own: where the highest table has an entry for
-- the address, a page that is mapped in the clone is mapped in the current address space too.
pub clone_shares :
    (virt phys flags : ℕ) (lvl : ℕ → ℕ) (s : Paging)
    → flags < page_size
    → IsTree lvl s
    → lvl s.pml4 ≡ 4
    → is_present (s.tables s.pml4 (idx_pml4 virt)) ≡ true
    → (clone_current s).0 ≢ 0
    → (map_page_on (clone_current s).0 virt phys flags (clone_current s).1).0 ≡ 0
    → get_phys_on s.pml4 virt
        (map_page_on (clone_current s).0 virt phys flags (clone_current s).1).1
      ≡ bit_or (page_addr phys) (virt % 2 ^ 12)
clone_shares virt phys flags lvl s low tree at here some_clone done =
    let c = clone_current s in
    elim (clone_current_lem lvl s tree at) [
      | inl null ↦ absurd (some_clone null)
      | inr (lvl', tree', at', at_clone, ne, same, kept) ↦
          map_in_copy s.pml4 c.0 virt phys flags lvl' c.1 low tree' at' at_clone ne same
            (ap (λ (b : ℕ → ℕ). is_present (b (idx_pml4 virt))) kept ∙ here) done
    ]
