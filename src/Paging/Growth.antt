-- ===== src/Paging/Growth.antt =====
-- mm/paging.c: what a step of `paging_map_page_on` keeps of the tree, and the bit for user mode.
use epona_os.Base.{
  ℕ, ◌≤◌, ◌<◌, bit_or, ◌≡◌, refl, sym, ap, ◌∙◌, ◌≢◌, true, false, ◌&&◌, arith, upd, upd_self,
  upd_ne, ◌==◌, if_elim,
}
use epona_os.Pmm.{Pmm}
use epona_os.Pmm.Bitmap.{is_used}
use epona_os.Paging.{
  Paging, page_user, page_addr, is_present, is_huge, is_user, set_entry, mark_user,
}
use epona_os.Paging.Bits.{page_addr-bit_or, is_present-bit_or, is_huge-bit_or}
use epona_os.Paging.Tree.{IsTree, set_entry-IsTree}

-- The tree has grown, and the tables above level `n` are as they were.
pub record Grown (n : ℕ) (lvl lvl' : ℕ → ℕ) (s s' : Paging) : Type 0 where
  pub tree : IsTree lvl' s'
  pub levels : (t : ℕ) → lvl t ≢ 0 → lvl' t ≡ lvl t
  pub keep : (t : ℕ) → n < lvl t → s'.tables t ≡ s.tables t

pub Grown-join :
    (m n : ℕ) (lvl lvl' lvl'' : ℕ → ℕ) (s s' s'' : Paging)
    → n ≤ m
    → Grown m lvl lvl' s s'
    → Grown n lvl' lvl'' s' s''
    → Grown m lvl lvl'' s s''
Grown-join m n lvl lvl' lvl'' s s' s'' le g h = record {
  tree = h.tree;
  levels = λ t table.
      let same : lvl' t ≡ lvl t = g.levels t table in
      h.levels t (λ none_there. table (sym same ∙ none_there)) ∙ same;
  keep = λ t high.
      let same : lvl' t ≡ lvl t = g.levels t (λ none_there. omega (arith, high, none_there)) in
      h.keep t (omega (arith, same, high, le)) ∙ g.keep t high;
}

-- No frame is left.
abbrev pub Full : Pmm → Type 0
Full pmm = (g : ℕ) → g < pmm.total_frames → is_used pmm.bitmap g ≡ true

-- Entry `i` of the table at `t`, which is on level `n + 2`, leads to the table at `u`.
pub record Leads (n t i u : ℕ) (s : Paging) : Type 0 where
  pub present : is_present (s.tables t i) ≡ true
  pub to : page_addr (s.tables t i) ≡ u
  pub plain : (is_huge (s.tables t i) && n == 0) ≡ false

pub entry_at : (t i e : ℕ) (s : Paging) → (set_entry t i e s).tables t i ≡ e
entry_at t i e s =
    ap (λ (b : ℕ → ℕ). b i) (upd_self s.tables t (upd (s.tables t) i e)) ∙ upd_self (s.tables t) i e

pub set_entry-Leads :
    (n t i u e : ℕ) (s : Paging)
    → is_present e ≡ true
    → page_addr e ≡ u
    → (is_huge e && n == 0) ≡ false
    → Leads n t i u (set_entry t i e s)
set_entry-Leads n t i u e s here to plain = record {
  present = ap is_present (entry_at t i e s) ∙ here;
  to = ap page_addr (entry_at t i e s) ∙ to;
  plain = ap (λ e. is_huge e && n == 0) (entry_at t i e s) ∙ plain;
}

-- The bit for user mode changes nothing of this.
pub mark_user-Leads :
    (n t i u flags : ℕ) (s : Paging) → Leads n t i u s → Leads n t i u (mark_user t i flags s)
unfolding mark_user
mark_user-Leads n t i u flags s l =
    let e : ℕ = s.tables t i in
    if_elim (Leads n t i u) (is_user flags)
      (λ user.
        set_entry-Leads n t i u (bit_or e page_user) s
          (ground (arith, is_present-bit_or e page_user, l.present))
          (page_addr-bit_or e page_user (omega arith) ∙ l.to)
          (ground (arith, is_huge-bit_or e page_user, l.plain)))
      (λ kernel. l)

pub mark_user-IsTree :
    (t i flags : ℕ) (lvl : ℕ → ℕ) (s : Paging) → IsTree lvl s → IsTree lvl (mark_user t i flags s)
unfolding mark_user
mark_user-IsTree t i flags lvl s tree =
    let e : ℕ = s.tables t i in
    if_elim (IsTree lvl) (is_user flags)
      (λ user. set_entry-IsTree t i (bit_or e page_user) lvl s tree (λ n at here plain.
        ap lvl (page_addr-bit_or e page_user (omega arith))
        ∙ tree.entries t i n at (ground (arith, is_present-bit_or e page_user, here))
            (ground (arith, is_huge-bit_or e page_user, plain))))
      (λ kernel. tree)

pub mark_user-keep :
    (t i flags x : ℕ) (s : Paging) → t ≢ x → (mark_user t i flags s).tables x ≡ s.tables x
unfolding mark_user
mark_user-keep t i flags x s ne =
    if_elim (λ (s' : Paging). s'.tables x ≡ s.tables x) (is_user flags)
      (λ user. upd_ne s.tables t x (upd (s.tables t) i (bit_or (s.tables t i) page_user)) ne)
      (λ kernel. refl)

pub mark_user-huge :
    (t i flags : ℕ) (s : Paging)
    → is_huge ((mark_user t i flags s).tables t i) ≡ is_huge (s.tables t i)
unfolding mark_user
mark_user-huge t i flags s =
    let e : ℕ = s.tables t i in
    if_elim (λ (s' : Paging). is_huge (s'.tables t i) ≡ is_huge e) (is_user flags)
      (λ user.
        ap is_huge (entry_at t i (bit_or e page_user) s)
        ∙ ground (arith, is_huge-bit_or e page_user))
      (λ kernel. refl)

pub mark_user-Grown :
    (n t i flags : ℕ) (lvl : ℕ → ℕ) (s : Paging)
    → IsTree lvl s
    → lvl t ≡ n
    → Grown n lvl lvl s (mark_user t i flags s)
mark_user-Grown n t i flags lvl s tree at = record {
  tree = mark_user-IsTree t i flags lvl s tree;
  levels = λ x table. refl;
  keep = λ x high. mark_user-keep t i flags x s (λ same. omega (arith, at, ap lvl same, high));
}
