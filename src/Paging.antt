-- ===== src/Paging.antt =====
-- mm/paging.c: the page tables of four levels. A table is a function from the index to the entry, and the tables
-- stand at their addresses, which are those of the frames that hold them; the physical memory below 4 GiB is
-- mapped to itself. What is in the TLB is not modelled.
use epona_os.Base.{
  ℕ, zero, suc, ◌+◌, ◌-◌, ◌*◌, ◌/◌, ◌%◌, ◌^◌, ◌≤◌, ◌<◌, bit_and, bit_or, bit_xor, ◌≡◌, refl, sym,
  ap, ◌∙◌, ◌≢◌, ◌↔◌, ◌⊎◌, inl, inr, Bool, true, false, ◌&&◌, ◌||◌, not, Option, none, some, List,
  [], ◌∷◌, ◌++◌, arith, Arr, upd, upd_self, upd_ne, subst, length, length-append, ltb, leb, ◌==◌,
  ==_iff, if◌then◌else◌, Bool-cases, if_elim, extend_down, Option-cases, ltb→lt, &&_split,
  all_below, all_below_sound, bytes_at, length-bytes_at, bytes_at_ext, bytes_at-add, codes,
  write_bytes, write_bytes-out, bytes_at-write_bytes, Spells, Spells-append, Spells-join,
  Spells-ext, Spells-write_bytes,
}
use epona_os.Pmm
use epona_os.Pmm.{Pmm, page_size}
pub mod Bits
pub mod Tree
pub mod Growth
pub mod Enter
pub mod Descend
pub mod Mapping
pub mod Sharing
mod Examples

abbrev pub page_table_entries : ℕ
page_table_entries = 512

abbrev pub page_present : ℕ
page_present = 1

abbrev pub page_rw : ℕ
page_rw = 2

abbrev pub page_user : ℕ
page_user = 4

abbrev pub page_huge : ℕ
page_huge = 128

-- -1, as a 32-bit pattern.
abbrev pub minus_one : ℕ
minus_one = 2 ^ 32 - 1

-- The memory as page tables, `g_pml4`, and the frame allocator.
pub record Paging : Type 0 where
  pub tables : ℕ → ℕ → ℕ
  pub pml4 : ℕ
  pub pmm : Pmm

-- The four indexes of an address.
abbrev pub idx_pml4 : ℕ → ℕ
idx_pml4 virt = virt / 2 ^ 39 % 512

abbrev pub idx_pdpt : ℕ → ℕ
idx_pdpt virt = virt / 2 ^ 30 % 512

abbrev pub idx_pd : ℕ → ℕ
idx_pd virt = virt / 2 ^ 21 % 512

abbrev pub idx_pt : ℕ → ℕ
idx_pt virt = virt / 2 ^ 12 % 512

-- `& PAGE_PRESENT`, `& PAGE_HUGE`, `& PAGE_USER`
abbrev pub is_present : ℕ → Bool
is_present e = e % 2 == 1

abbrev pub is_huge : ℕ → Bool
is_huge e = e / page_huge % 2 == 1

abbrev pub is_user : ℕ → Bool
is_user flags = flags / page_user % 2 == 1

abbrev pub table_flags : ℕ → ℕ
table_flags flags = flags / page_user % 2 * page_user

-- `& PAGE_ADDR_MASK`
abbrev pub page_addr : ℕ → ℕ
page_addr e = e % 2 ^ 52 / page_size * page_size

abbrev pub set_entry : (t i e : ℕ) → Paging → Paging
set_entry t i e s = record s { tables = upd s.tables t (upd (s.tables t) i e) }

-- `| PAGE_PRESENT | PAGE_RW | table_flags`
abbrev pub table_entry : (addr flags : ℕ) → ℕ
table_entry addr flags = bit_or (bit_or (bit_or addr page_present) page_rw) (table_flags flags)

-- `paging_get_or_create_table` for entry `i` of the table at `t`.
unfoldable pub get_or_create_table : (t i flags : ℕ) → Paging → ℕ × Paging
get_or_create_table t i flags s =
    let e = s.tables t i in
    let (f, pmm) = Pmm.alloc s.pmm in
    let cleared : Paging = record s { tables = upd s.tables f (λ _. 0); pmm = pmm } in
    if is_present e
    then (page_addr e, s)
    else if f == 0
    then (0, record s { pmm = pmm })
    else (f, set_entry t i (table_entry f flags) cleared)

-- `if (flags & PAGE_USER) *e |= PAGE_USER`
unfoldable pub mark_user : (t i flags : ℕ) → Paging → Paging
mark_user t i flags s =
    if is_user flags then set_entry t i (bit_or (s.tables t i) page_user) s else s

-- A huge page becomes a table of 512 pages; false when there is no frame for it.
unfoldable pub split_huge : (pd i flags : ℕ) → Paging → Bool × Paging
split_huge pd i flags s =
    let e = s.tables pd i in
    let (f, pmm) = Pmm.alloc s.pmm in
    let filled : Paging = record s {
      tables = upd s.tables f (λ j. table_entry (page_addr e + j * page_size) flags);
      pmm = pmm;
    } in
    if not (is_huge e)
    then (true, s)
    else if f == 0
    then (false, record s { pmm = pmm })
    else (true, set_entry pd i (table_entry f flags) filled)

-- The parts of `paging_map_page_on` from the page directory on, from the table above it on, and the whole.
unfoldable pub map_in_pd : (pd virt phys flags : ℕ) → Paging → ℕ × Paging
map_in_pd pd virt phys flags s =
    let (split, s1) = split_huge pd (idx_pd virt) flags s in
    let (pt, s2) =
      get_or_create_table pd (idx_pd virt) flags (mark_user pd (idx_pd virt) flags s1) in
    if not split
    then (minus_one, s1)
    else if pt == 0
    then (minus_one, s2)
    else (0, set_entry pt (idx_pt virt) (bit_or (page_addr phys) (bit_or flags page_present)) s2)

unfoldable pub map_in_pdpt : (pdpt virt phys flags : ℕ) → Paging → ℕ × Paging
map_in_pdpt pdpt virt phys flags s =
    let (pd, s1) = get_or_create_table pdpt (idx_pdpt virt) flags s in
    if pd == 0
    then (minus_one, s1)
    else map_in_pd pd virt phys flags (mark_user pdpt (idx_pdpt virt) flags s1)

unfoldable pub map_page_on : (pml4 virt phys flags : ℕ) → Paging → ℕ × Paging
map_page_on pml4 virt phys flags s =
    let (pdpt, s1) = get_or_create_table pml4 (idx_pml4 virt) flags s in
    if pdpt == 0
    then (minus_one, s1)
    else map_in_pdpt pdpt virt phys flags (mark_user pml4 (idx_pml4 virt) flags s1)

-- `paging_map_page`
pub map_page : (virt phys flags : ℕ) → Paging → ℕ × Paging
map_page virt phys flags s = map_page_on s.pml4 virt phys flags s

-- The loop of `paging_map_range`, over the pages that are left.
pub map_range : (pages virt phys flags : ℕ) → Paging → ℕ × Paging
map_range zero virt phys flags s = (0, s)
map_range (suc pages) virt phys flags s =
    let (r, s1) = map_page virt phys flags s in
    let rest =
      map_range pages ((virt + page_size) % 2 ^ 64) ((phys + page_size) % 2 ^ 64) flags s1 in
    if leb (2 ^ 31) r then (minus_one, s1) else rest

-- The table that an entry leads to.
unfoldable pub next_table : (t i : ℕ) → Paging → Option ℕ
next_table t i s = if is_present (s.tables t i) then some (page_addr (s.tables t i)) else none

-- The parts of `paging_get_phys_on` from the page table on, from the page directory on, and so on; 0 is the answer
-- for a page that is not mapped.
unfoldable pub get_in_pt : (pt virt : ℕ) → Paging → ℕ
get_in_pt pt virt s =
    let e = s.tables pt (idx_pt virt) in
    if is_present e then bit_or (page_addr e) (virt % 2 ^ 12) else 0

unfoldable pub get_in_pd : (pd virt : ℕ) → Paging → ℕ
get_in_pd pd virt s =
    let e = s.tables pd (idx_pd virt) in
    if is_huge e
    then bit_or (page_addr e) (virt % 2 ^ 21)
    else elim (next_table pd (idx_pd virt) s) [ none ↦ 0 | some pt ↦ get_in_pt pt virt s ]

unfoldable pub get_in_pdpt : (pdpt virt : ℕ) → Paging → ℕ
get_in_pdpt pdpt virt s = elim (next_table pdpt (idx_pdpt virt) s) [
  | none ↦ 0
  | some pd ↦ get_in_pd pd virt s
]

unfoldable pub get_phys_on : (pml4 virt : ℕ) → Paging → ℕ
get_phys_on pml4 virt s = elim (next_table pml4 (idx_pml4 virt) s) [
  | none ↦ 0
  | some pdpt ↦ get_in_pdpt pdpt virt s
]

-- `paging_get_phys`
pub get_phys : (virt : ℕ) → Paging → ℕ
get_phys virt s = get_phys_on s.pml4 virt s

-- The part of `paging_unmap_page` in the page table; the result and the frame allocator.
pub unmap_in_pt : (pt i : ℕ) → Paging → ℕ × Paging
unmap_in_pt pt i s =
    let e = s.tables pt i in
    let pmm = if page_addr e == 0 then s.pmm else Pmm.free (page_addr e) s.pmm in
    if is_present e then (0, set_entry pt i 0 (record s { pmm = pmm })) else (minus_one, s)

-- `paging_unmap_page`, which takes a huge page for a page table.
pub unmap_page : (virt : ℕ) → Paging → ℕ × Paging
unmap_page virt s = elim (next_table s.pml4 (idx_pml4 virt) s) [
  | none ↦ (minus_one, s)
  | some pdpt ↦ elim (next_table pdpt (idx_pdpt virt) s) [
    | none ↦ (minus_one, s)
    | some pd ↦ elim (next_table pd (idx_pd virt) s) [
      | none ↦ (minus_one, s)
      | some pt ↦ unmap_in_pt pt (idx_pt virt) s
    ]
  ]
]

-- `*e |= flags`
abbrev pub add_to : (t i flags : ℕ) → Paging → Paging
add_to t i flags s = set_entry t i (bit_or (s.tables t i) flags) s

-- `paging_add_flags`
pub add_flags : (virt flags : ℕ) → Paging → ℕ × Paging
add_flags virt flags s = elim (next_table s.pml4 (idx_pml4 virt) s) [
  | none ↦ (minus_one, s)
  | some pdpt ↦
      let s1 = add_to s.pml4 (idx_pml4 virt) flags s in
      elim (next_table pdpt (idx_pdpt virt) s1) [
        | none ↦ (minus_one, s1)
        | some pd ↦
            let s2 = add_to pdpt (idx_pdpt virt) flags s1 in
            let s3 = add_to pd (idx_pd virt) flags s2 in
            if is_huge (s2.tables pdpt (idx_pdpt virt))
            then (0, s2)
            else elim (next_table pd (idx_pd virt) s2) [
              | none ↦ (minus_one, s2)
              | some pt ↦
                  if is_huge (s2.tables pd (idx_pd virt))
                  then (0, s3)
                  else if is_present (s2.tables pt (idx_pt virt))
                  then (0, add_to pt (idx_pt virt) flags s2)
                  else (minus_one, s2)
            ]
      ]
]

-- `paging_clone_current`: the address of the copy of the highest table, or 0.
unfoldable pub clone_current : Paging → ℕ × Paging
clone_current s =
    let (f, pmm) = Pmm.alloc s.pmm in
    if f == 0
    then (0, record s { pmm = pmm })
    else (f, record s { tables = upd s.tables f (s.tables s.pml4); pmm = pmm })

-- `paging_init`, with the register CR3.
pub init : (cr3 : ℕ) → Paging → Paging
init cr3 s = record s { pml4 = page_addr cr3 }
