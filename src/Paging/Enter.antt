-- ===== src/Paging/Enter.antt =====
-- mm/paging.c: `paging_get_or_create_table` in a tree of page tables.
use epona_os.Base.{
  ℕ, suc, ◌*◌, ◌<◌, ◌≡◌, refl, sym, ap, ◌∙◌, ◌≢◌, ◌⊎◌, inl, inr, true, false, ◌&&◌, arith, upd,
  upd_self, upd_ne, subst, ◌==◌, if_elim,
}
use epona_os.Pmm
use epona_os.Pmm.{Pmm, page_size}
use epona_os.Pmm.Alloc.{Taken, alloc_first_free}
use epona_os.Paging.{
  Paging, page_addr, is_present, is_huge, table_entry, set_entry, get_or_create_table,
}
use epona_os.Paging.Bits.{table_entry_lem}
use epona_os.Paging.Tree.{IsTree, set_entry-IsTree, fresh, fresh_frame, add_table}
use epona_os.Paging.Growth.{Grown, Full, Leads, set_entry-Leads}

pub Grown-self : (n : ℕ) (lvl : ℕ → ℕ) (s : Paging) → IsTree lvl s → Grown n lvl lvl s s
Grown-self n lvl s tree = record { tree = tree; levels = λ t table. refl; keep = λ t high. refl }

-- An allocation that fails changes nothing.
pub no_frame :
    (n : ℕ) (lvl : ℕ → ℕ) (s : Paging) (pmm : Pmm)
    → IsTree lvl s
    → pmm ≡ s.pmm
    → Grown n lvl lvl s (record s { pmm = pmm })
no_frame n lvl s pmm tree same =
    subst (λ pmm. Grown n lvl lvl s (record s { pmm = pmm })) (sym same) (Grown-self n lvl s tree)

-- A new table on level `n + 1`, with an entry of the table at `t` that leads to it.
pub new_table :
    (f n t i flags : ℕ) (body : ℕ → ℕ) (pmm : Pmm) (lvl : ℕ → ℕ) (s : Paging)
    → IsTree lvl s
    → Taken s.pmm pmm f 1
    → f < s.pmm.total_frames
    → f * page_size ≢ 0
    → lvl t ≡ suc (suc n)
    → ((j k : ℕ) → suc n ≡ suc (suc k) → is_present (body j) ≡ false)
    → Grown (suc (suc n)) lvl (upd lvl (f * page_size) (suc n)) s (
        set_entry t i
          (table_entry (f * page_size) flags)
          (record s { tables = upd s.tables (f * page_size) body; pmm = pmm }))
      × Leads n t i (f * page_size) (
          set_entry t i
            (table_entry (f * page_size) flags)
            (record s { tables = upd s.tables (f * page_size) body; pmm = pmm }))
new_table f n t i flags body pmm lvl s tree taken lt pos at empty =
    let new : ℕ = f * page_size in
    let lvl' : ℕ → ℕ = upd lvl new (suc n) in
    let s1 : Paging = record s { tables = upd s.tables new body; pmm = pmm } in
    let no_table : lvl new ≡ 0 = fresh lvl s pmm f tree taken in
    let apart : (x : ℕ) → lvl x ≢ 0 → new ≢ x =
      λ x table same. table (sym (ap lvl same) ∙ no_table) in
    let level : (x : ℕ) → lvl x ≢ 0 → lvl' x ≡ lvl x =
      λ x table. upd_ne lvl new x (suc n) (apart x table) in
    let at' : lvl' t ≡ suc (suc n) = level t (λ none_there. omega (arith, at, none_there)) ∙ at in
    let e = table_entry_lem new flags (omega arith) (omega (arith, lt, tree.frames.small)) in
    (
      record {
        tree =
            set_entry-IsTree t i (table_entry new flags) lvl' s1
              (add_table f (suc n) body pmm lvl s tree taken pos (λ j k deep here plain.
                let absent : is_present (body j) ≡ false = empty j k deep in
                absurd (cc (absent, here))))
              (λ k high here plain.
                ap lvl' e.0 ∙ upd_self lvl new (suc n) ∙ omega (arith, at', high));
        levels = level;
        keep = λ x high.
            upd_ne s1.tables t x (upd (s1.tables t) i (table_entry new flags))
              (λ same. omega (arith, at, ap lvl same, high))
            ∙ upd_ne s.tables new x body (apart x (λ none_there. omega (arith, high, none_there)));
      },
      set_entry-Leads n t i new (table_entry new flags) s1 e.1 e.0 (ground (arith, e.2)),
    )

-- What `paging_get_or_create_table` leaves: a table on the level below, or no frame.
abbrev pub Entered : (n t i : ℕ) (lvl : ℕ → ℕ) (s : Paging) → ℕ × Paging → Type 0
Entered n t i lvl s (u, s') =
    (lvl' : ℕ → ℕ) × Grown (suc (suc n)) lvl lvl' s s'
    × (((u ≡ 0) × Full s'.pmm) ⊎ ((u ≢ 0) × (lvl' u ≡ suc n) × Leads n t i u s'))

pub get_or_create_table_lem :
    (n t i flags : ℕ) (lvl : ℕ → ℕ) (s : Paging)
    → IsTree lvl s
    → lvl t ≡ suc (suc n)
    → (is_huge (s.tables t i) && n == 0) ≡ false
    → Entered n t i lvl s (get_or_create_table t i flags s)
unfolding get_or_create_table
get_or_create_table_lem n t i flags lvl s tree at plain =
    let e : ℕ = s.tables t i in
    let P : ℕ × Paging → Type 0 = Entered n t i lvl s in
    if_elim P (is_present e)
      (λ here.
        let below : lvl (page_addr e) ≡ suc n = tree.entries t i n at here plain in
        (
          lvl,
          Grown-self (suc (suc n)) lvl s tree,
          inr (
            λ null. omega (arith, sym below ∙ ap lvl null ∙ tree.null),
            below,
            record { present = here; to = refl; plain = plain },
          ),
        ))
      (λ missing. elim (alloc_first_free s.pmm tree.frames) [
        | inl (null, same, all) ↦
            let is_null : ((Pmm.alloc s.pmm).0 == 0) ≡ true = ground (arith, null) in
            rw is_null (
              lvl,
              no_frame (suc (suc n)) lvl s (Pmm.alloc s.pmm).1 tree same,
              inl (refl, subst Full (sym same) (λ g lt. all g (omega arith) lt)),
            )
        | inr (f, lt, got, taken, before) ↦
            let pos : f * page_size ≢ 0 = fresh_frame lvl s (Pmm.alloc s.pmm).1 f tree taken in
            let not_null : ((Pmm.alloc s.pmm).0 == 0) ≡ false = ground (arith, got, pos) in
            let (grown, leads) =
              new_table f n t i flags (λ _. 0) (Pmm.alloc s.pmm).1 lvl s tree taken lt pos at
                (λ j k deep. refl) in
            rw (not_null, got)
              (
                upd lvl (f * page_size) (suc n),
                grown,
                inr (pos, upd_self lvl (f * page_size) (suc n), leads),
              )
      ])
