-- ===== src/Paging/Descend.antt =====
-- mm/paging.c: `paging_map_page_on` from one level to the next.
use epona_os.Base.{
  ℕ, suc, ◌≡◌, refl, ap, ◌∙◌, ◌⊎◌, inl, inr, true, Option, none, some, arith, ◌==◌, if◌then◌else◌,
  if_elim,
}
use epona_os.Paging.{
  Paging, minus_one, page_addr, is_present, get_or_create_table, mark_user, next_table,
}
use epona_os.Paging.Tree.{IsTree}
use epona_os.Paging.Growth.{Grown, Grown-join, Full, Leads, mark_user-Leads, mark_user-Grown}
use epona_os.Paging.Enter.{get_or_create_table_lem}

-- The tables on the way to a page, and what is found there, when it has been mapped or when no frame was left.
abbrev pub Mapped :
    (n : ℕ) (lvl : ℕ → ℕ) (s : Paging) (get : ℕ → Paging → ℕ) (target t : ℕ) → ℕ × Paging → Type 0
Mapped n lvl s get target t (r, s') =
    (lvl' : ℕ → ℕ) × Grown n lvl lvl' s s'
    × (((r ≡ minus_one) × Full s'.pmm) ⊎ ((r ≡ 0) × (get t s' ≡ target)))

pub Leads-next :
    (n t i u : ℕ) (s s' : Paging)
    → Leads n t i u s
    → s'.tables t ≡ s.tables t
    → next_table t i s' ≡ some u
unfolding next_table
Leads-next n t i u s s' l same =
    let entry : s'.tables t i ≡ s.tables t i = ap (λ (b : ℕ → ℕ). b i) same in
    let here : is_present (s'.tables t i) ≡ true = ap is_present entry ∙ l.present in
    rw here (ap (λ e. some (page_addr e)) entry ∙ ap some l.to)

-- One level down, for the two levels above the page directory.
pub descend :
    (n t i flags : ℕ) (inner : ℕ → Paging → ℕ × Paging) (get : ℕ → Paging → ℕ) (target : ℕ)
    (lvl : ℕ → ℕ) (s : Paging)
    → IsTree lvl s
    → lvl t ≡ suc (suc (suc n))
    → ((u : ℕ) (lvl : ℕ → ℕ) (s : Paging)
        → IsTree lvl s
        → lvl u ≡ suc (suc n)
        → Mapped (suc (suc n)) lvl s get target u (inner u s))
    → Mapped
        (suc (suc (suc n)))
        lvl
        s
        (λ t s. elim (next_table t i s) [ none ↦ 0 | some u ↦ get u s ])
        target
        t
        (if (get_or_create_table t i flags s).0 == 0
          then (minus_one, (get_or_create_table t i flags s).1)
          else inner
              (get_or_create_table t i flags s).0
              (mark_user t i flags (get_or_create_table t i flags s).1))
descend n t i flags inner get target lvl s tree at inner_maps =
    let r = get_or_create_table t i flags s in
    let (lvl1, grown, found) =
      get_or_create_table_lem (suc n) t i flags lvl s tree at (ground arith) in
    let P : ℕ × Paging → Type 0 =
      Mapped (suc (suc (suc n))) lvl s
        (λ t s. elim (next_table t i s) [ none ↦ 0 | some u ↦ get u s ]) target t in
    elim found [
      | inl (null, full) ↦
          if_elim P (r.0 == 0) (λ e. (lvl1, grown, inl (refl, full)))
            (λ e. absurd (ground (arith, null, e)))
      | inr (pos, below, leads) ↦
          let at1 : lvl1 t ≡ suc (suc (suc n)) =
            grown.levels t (λ none_there. omega (arith, at, none_there)) ∙ at in
          let s2 : Paging = mark_user t i flags r.1 in
          let marked : Grown (suc (suc (suc n))) lvl1 lvl1 r.1 s2 =
            mark_user-Grown (suc (suc (suc n))) t i flags lvl1 r.1 grown.tree at1 in
          let leads2 : Leads (suc n) t i r.0 s2 = mark_user-Leads (suc n) t i r.0 flags r.1 leads in
          let (lvl2, grown2, result) = inner_maps r.0 lvl1 s2 marked.tree below in
          let s3 : Paging = (inner r.0 s2).1 in
          let all : Grown (suc (suc (suc n))) lvl lvl2 s s3 =
            Grown-join (suc (suc (suc n))) (suc (suc (suc n))) lvl lvl1 lvl2 s r.1 s3 (omega arith)
              grown
              (Grown-join (suc (suc (suc n))) (suc (suc n)) lvl1 lvl1 lvl2 r.1 s2 s3 (omega arith)
                marked grown2) in
          let next : next_table t i s3 ≡ some r.0 =
            Leads-next (suc n) t i r.0 s2 s3 leads2 (grown2.keep t (omega (arith, at1))) in
          let top : elim (next_table t i s3) [ none ↦ 0 | some u ↦ get u s3 ] ≡ get r.0 s3 =
            ap (λ (o : Option ℕ). elim o [ none ↦ 0 | some u ↦ get u s3 ]) next in
          if_elim P (r.0 == 0) (λ e. absurd (pos (ground (arith, e))))
            (λ e. elim result [
              | inl (failed, full) ↦ (lvl2, all, inl (failed, full))
              | inr (done, there) ↦ (lvl2, all, inr (done, top ∙ there))
            ])
    ]
