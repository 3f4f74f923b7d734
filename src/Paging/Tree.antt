-- ===== src/Paging/Tree.antt =====
-- mm/paging.c: the tables of an address space form a tree.
use epona_os.Base.{
  ℕ, suc, ◌*◌, ◌/◌, ◌≡◌, refl, sym, ap, ◌∙◌, ◌≢◌, inl, inr, true, false, ◌&&◌, arith, upd, upd_self,
  upd_ne, subst, ◌==◌, if◌then◌else◌, Bool-cases, if_elim,
}
use epona_os.Pmm.{Pmm, page_size}
use epona_os.Pmm.Bitmap.{is_used}
use epona_os.Pmm.Count.{IsValid}
use epona_os.Pmm.Alloc.{Taken}
use epona_os.Paging.{Paging, page_addr, is_present, is_huge, set_entry}

-- `lvl` is the level of the table at an address, 4 for the highest and 0 for what is no table. A present entry that
-- is not a huge page leads to a table of the level below, and the frames of all tables are in use, as is frame 0.
pub record IsTree (lvl : ℕ → ℕ) (s : Paging) : Type 0 where
  pub frames : IsValid s.pmm
  pub null : lvl 0 ≡ 0
  pub low : is_used s.pmm.bitmap 0 ≡ true
  pub in_use : (t : ℕ) → lvl t ≢ 0 → is_used s.pmm.bitmap (t / page_size) ≡ true
  pub entries :
      (t i n : ℕ)
      → lvl t ≡ suc (suc n)
      → is_present (s.tables t i) ≡ true
      → (is_huge (s.tables t i) && n == 0) ≡ false
      → lvl (page_addr (s.tables t i)) ≡ suc n

entry_set :
    (t i e x j : ℕ) (s : Paging)
    → (set_entry t i e s).tables x j ≡ (if t == x && i == j then e else s.tables x j)
entry_set t i e x j s = elim (Bool-cases (t == x)) [
  | inl same ↦
      let at : t ≡ x = ground (arith, same) in
      rw same (ap (λ y. if i == j then e else s.tables y j) at)
  | inr other ↦ rw other refl
]

-- A new entry keeps the tree if it leads to the level below.
pub set_entry-IsTree :
    (t i e : ℕ) (lvl : ℕ → ℕ) (s : Paging)
    → IsTree lvl s
    → ((n : ℕ)
        → lvl t ≡ suc (suc n)
        → is_present e ≡ true
        → (is_huge e && n == 0) ≡ false
        → lvl (page_addr e) ≡ suc n)
    → IsTree lvl (set_entry t i e s)
set_entry-IsTree t i e lvl s tree leads = record {
  frames = tree.frames;
  null = tree.null;
  low = tree.low;
  in_use = tree.in_use;
  entries = λ x j n at.
      let P : ℕ → Type 0 =
        λ e. is_present e ≡ true → (is_huge e && n == 0) ≡ false → lvl (page_addr e) ≡ suc n in
      subst P (sym (entry_set t i e x j s)) (
        if_elim P (t == x && i == j)
          (λ here. let same : t ≡ x = ground (arith, here) in leads n (ap lvl same ∙ at))
          (λ there. tree.entries x j n at));
}

-- A frame that was free holds no table.
pub fresh :
    (lvl : ℕ → ℕ) (s : Paging) (pmm : Pmm) (f : ℕ)
    → IsTree lvl s
    → Taken s.pmm pmm f 1
    → lvl (f * page_size) ≡ 0
fresh lvl s pmm f tree taken =
    let free : is_used s.pmm.bitmap f ≡ false = taken.were_free f (omega arith) (omega arith) in
    let same : f * page_size / page_size ≡ f = omega arith in
    elim (Bool-cases (lvl (f * page_size) == 0)) [
      | inl no_table ↦ ground (arith, no_table)
      | inr table ↦
          let used : is_used s.pmm.bitmap (f * page_size / page_size) ≡ true =
            tree.in_use (f * page_size) (ground (arith, table)) in
          absurd (cc (used, free, ap (is_used s.pmm.bitmap) same))
    ]

-- A new table, in a frame that was free, with entries that lead to the level below.
pub add_table :
    (f m : ℕ) (body : ℕ → ℕ) (pmm : Pmm) (lvl : ℕ → ℕ) (s : Paging)
    → IsTree lvl s
    → Taken s.pmm pmm f 1
    → f * page_size ≢ 0
    → ((j n : ℕ)
        → m ≡ suc (suc n)
        → is_present (body j) ≡ true
        → (is_huge (body j) && n == 0) ≡ false
        → lvl (page_addr (body j)) ≡ suc n)
    → IsTree
        (upd lvl (f * page_size) m)
        (record s { tables = upd s.tables (f * page_size) body; pmm = pmm })
add_table f m body pmm lvl s tree taken pos leads =
    let at : ℕ = f * page_size in
    let no_table : lvl at ≡ 0 = fresh lvl s pmm f tree taken in
    let leads_on : (b c : ℕ → ℕ) (i n : ℕ)
        → b ≡ c
        → lvl (page_addr (c i)) ≡ suc n
        → upd lvl at m (page_addr (b i)) ≡ suc n =
      λ b c i n tab old.
        let apart : at ≢ page_addr (c i) = λ eq. omega (arith, sym no_table ∙ ap lvl eq ∙ old) in
        ap (λ (b : ℕ → ℕ). upd lvl at m (page_addr (b i))) tab
        ∙ upd_ne lvl at (page_addr (c i)) m apart
        ∙ old in
    let ne_at : (t : ℕ) → (at == t) ≡ false → at ≢ t = λ t e. ground (arith, e) in
    record {
      frames = taken.valid;
      null = upd_ne lvl at 0 m pos ∙ tree.null;
      low = ground (arith, taken.bits 0, tree.low);
      in_use = λ t table. elim (Bool-cases (at == t)) [
        | inl same ↦
            let here : at ≡ t = ground (arith, same) in
            let frame : t / page_size ≡ f = omega (arith, here) in
            ground (arith, taken.bits (t / page_size), frame)
        | inr other ↦
            let old : lvl t ≢ 0 =
              λ none_there. table (upd_ne lvl at t m (ne_at t other) ∙ none_there) in
            ground (arith, taken.bits (t / page_size), tree.in_use t old)
      ];
      entries = λ t i n lv here plain. elim (Bool-cases (at == t)) [
        | inl same ↦
            let eq : t ≡ at = ground (arith, same) in
            let tab : upd s.tables at body t ≡ body =
              ap (upd s.tables at body) eq ∙ upd_self s.tables at body in
            leads_on (upd s.tables at body t) body i n tab (
              leads i n (sym (ap (upd lvl at m) eq ∙ upd_self lvl at m) ∙ lv)
                (sym (ap (λ (b : ℕ → ℕ). is_present (b i)) tab) ∙ here)
                (sym (ap (λ (b : ℕ → ℕ). is_huge (b i) && n == 0) tab) ∙ plain))
        | inr other ↦
            let tab : upd s.tables at body t ≡ s.tables t =
              upd_ne s.tables at t body (ne_at t other) in
            leads_on (upd s.tables at body t) (s.tables t) i n tab (
              tree.entries t i n (sym (upd_ne lvl at t m (ne_at t other)) ∙ lv)
                (sym (ap (λ (b : ℕ → ℕ). is_present (b i)) tab) ∙ here)
                (sym (ap (λ (b : ℕ → ℕ). is_huge (b i) && n == 0) tab) ∙ plain))
      ];
    }

-- The frame that is allocated is not frame 0.
pub fresh_frame :
    (lvl : ℕ → ℕ) (s : Paging) (pmm : Pmm) (f : ℕ)
    → IsTree lvl s
    → Taken s.pmm pmm f 1
    → f * page_size ≢ 0
fresh_frame lvl s pmm f tree taken null =
    let first : f ≡ 0 = omega (arith, null) in
    let free : is_used s.pmm.bitmap f ≡ false = taken.were_free f (omega arith) (omega arith) in
    absurd (cc (free, tree.low, ap (is_used s.pmm.bitmap) first))
