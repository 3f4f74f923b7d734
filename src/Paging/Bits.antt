-- ===== src/Paging/Bits.antt =====
-- The bitwise or of the entries of page tables, as arithmetic.
use epona_os.Base.{
  ℕ, zero, suc, ◌+◌, ◌*◌, ◌/◌, ◌%◌, ◌^◌, ◌≤◌, ◌<◌, bit_or, ◌≡◌, refl, sym, ap, ◌∙◌, true, false,
  ◌||◌, arith,
}
use Prim.Native.Nat.{digits, max, bit_or-bitwise}
use epona_os.Pmm.{page_size}
use epona_os.Paging.{
  page_addr, is_present, is_huge, page_huge, page_present, page_rw, table_flags, table_entry,
}

-- More rounds than digits change nothing.
rounds : (m n a b : ℕ) → a ≤ m → a ≤ n → digits (λ y. y) max m a b ≡ digits (λ y. y) max n a b
rounds zero zero a b h k = refl
rounds zero (suc n) zero b h k = refl
rounds zero (suc n) (suc a) b h k = absurd (omega arith)
rounds (suc m) zero zero b h k = refl
rounds (suc m) zero (suc a) b h k = absurd (omega arith)
rounds (suc m) (suc n) zero b h k = refl
rounds (suc m) (suc n) (suc a) b h k =
    rw (rounds m n (suc a / 2) (b / 2) (omega arith) (omega arith)) refl

bit_or_lem : (a b : ℕ) → bit_or a b ≡ bit_or (a / 2) (b / 2) * 2 + max (a % 2) (b % 2)
bit_or_lem zero b = simp bit_or-bitwise (omega arith)
bit_or_lem (suc a) b =
    simp bit_or-bitwise
      (omega (arith, rounds a (suc a / 2) (suc a / 2) (b / 2) (omega arith) (omega arith)))

half-bit_or : (a b : ℕ) → bit_or a b / 2 ≡ bit_or (a / 2) (b / 2)
half-bit_or a b = omega (arith, bit_or_lem a b)

pub low-bit_or : (a b : ℕ) → bit_or a b % 2 ≡ max (a % 2) (b % 2)
low-bit_or a b = omega (arith, bit_or_lem a b)

-- `k` places to the right.
shifted : ℕ → ℕ → ℕ
shifted zero a = a
shifted (suc k) a = shifted k (a / 2)

shifted-bit_or : (k a b : ℕ) → shifted k (bit_or a b) ≡ bit_or (shifted k a) (shifted k b)
unfolding shifted
shifted-bit_or zero a b = refl
shifted-bit_or (suc k) a b = ap (shifted k) (half-bit_or a b) ∙ shifted-bit_or k (a / 2) (b / 2)

seven : (a : ℕ) → shifted 7 a ≡ a / page_huge
unfolding shifted
seven a = omega arith

twelve : (a : ℕ) → shifted 12 a ≡ a / page_size
unfolding shifted
twelve a = omega arith

bit_or_none : (n a : ℕ) → a ≤ n → bit_or a 0 ≡ a
bit_or_none n zero h = simp bit_or-bitwise refl
bit_or_none zero (suc a) h = absurd (omega arith)
bit_or_none (suc n) (suc a) h =
    omega (arith, bit_or_lem (suc a) 0, bit_or_none n (suc a / 2) (omega arith))

-- Bits below the frame leave the frame as it is.
frame-bit_or : (a b : ℕ) → b < page_size → bit_or a b / page_size ≡ a / page_size
frame-bit_or a b lt =
    let low : b / page_size ≡ 0 = omega arith in
    let apart : bit_or a b / page_size ≡ bit_or (a / page_size) (b / page_size) =
      sym (twelve (bit_or a b))
      ∙ shifted-bit_or 12 a b
      ∙ ap (bit_or (shifted 12 a)) (twelve b)
      ∙ ap (λ x. bit_or x (b / page_size)) (twelve a) in
    apart
    ∙ ap (bit_or (a / page_size)) low
    ∙ bit_or_none (a / page_size) (a / page_size) (omega arith)

pub page_addr-bit_or : (a b : ℕ) → b < page_size → page_addr (bit_or a b) ≡ page_addr a
page_addr-bit_or a b lt = omega (arith, frame-bit_or a b lt)

huge-bit_or : (a b : ℕ) → bit_or a b / page_huge % 2 ≡ max (a / page_huge % 2) (b / page_huge % 2)
huge-bit_or a b =
    let apart : bit_or a b / page_huge ≡ bit_or (a / page_huge) (b / page_huge) =
      sym (seven (bit_or a b))
      ∙ shifted-bit_or 7 a b
      ∙ ap (bit_or (shifted 7 a)) (seven b)
      ∙ ap (λ x. bit_or x (b / page_huge)) (seven a) in
    ap (λ x. x % 2) apart ∙ low-bit_or (a / page_huge) (b / page_huge)

pub is_present-bit_or : (a b : ℕ) → is_present (bit_or a b) ≡ (is_present a || is_present b)
is_present-bit_or a b = ground (arith, low-bit_or a b)

pub is_huge-bit_or : (a b : ℕ) → is_huge (bit_or a b) ≡ (is_huge a || is_huge b)
is_huge-bit_or a b = ground (arith, huge-bit_or a b)

-- What the entry of a new table says.
pub table_entry_lem :
    (f flags : ℕ)
    → f % page_size ≡ 0
    → f < 2 ^ 52
    → (page_addr (table_entry f flags) ≡ f)
      × (is_present (table_entry f flags) ≡ true)
      × (is_huge (table_entry f flags) ≡ false)
table_entry_lem f flags aligned small =
    let one : ℕ = bit_or f page_present in
    let two : ℕ = bit_or one page_rw in
    (
      page_addr-bit_or two (table_flags flags) (omega arith)
          ∙ page_addr-bit_or one page_rw (omega arith)
          ∙ page_addr-bit_or f page_present (omega arith)
          ∙ omega (arith, aligned, small),
      ground (
        arith,
        is_present-bit_or two (table_flags flags),
        is_present-bit_or one page_rw,
        is_present-bit_or f page_present,
      ),
      ground (
        arith,
        aligned,
        is_huge-bit_or two (table_flags flags),
        is_huge-bit_or one page_rw,
        is_huge-bit_or f page_present,
      ),
    )

-- What the entry of a mapped page says.
pub page_entry_lem :
    (phys flags : ℕ)
    → flags < page_size
    → (page_addr (bit_or (page_addr phys) (bit_or flags page_present)) ≡ page_addr phys)
      × (is_present (bit_or (page_addr phys) (bit_or flags page_present)) ≡ true)
page_entry_lem phys flags lt =
    let low : bit_or flags page_present < page_size =
      omega (arith, frame-bit_or flags page_present (omega arith), lt) in
    (
      page_addr-bit_or (page_addr phys) (bit_or flags page_present) low ∙ omega arith,
      ground (
        arith,
        is_present-bit_or (page_addr phys) (bit_or flags page_present),
        is_present-bit_or flags page_present,
      ),
    )
