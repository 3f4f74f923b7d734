-- ===== src/Base/Arrays.antt =====
-- Lists measured by native numbers, and arrays: a function from the index, written at one place.
use Prim.Native.Nat.{ℕ, zero, suc, ◌+◌, ◌≤◌, ◌<◌}
use mathlib.Core.Path.{◌≡◌, refl, ap, ◌∙◌, subst}
use mathlib.Core.Logic.{◌≢◌, ◌⊎◌, inl}
use mathlib.Core.Bool.{true, false}
use mathlib.Core.List.{List, [], ◌∷◌, ◌++◌}
use native.Mathlib.Omega.{arith}
use epona_os.Base.Tests.{◌==◌, if◌then◌else◌}

-- A C array of numbers: what stands at each index.
abbrev pub Arr : Type 0
Arr = ℕ → ℕ

-- `a[i] = v`.
abbrev pub upd {ℓ} : {A : Type ℓ} → (ℕ → A) → ℕ → A → ℕ → A
upd a i v j = if i == j then v else a j

pub upd_self {ℓ} : {A : Type ℓ} (a : ℕ → A) (i : ℕ) (v : A) → upd a i v i ≡ v
upd_self a i v = let e : (i == i) ≡ true = ground arith in rw e

pub upd_ne {ℓ} : {A : Type ℓ} (a : ℕ → A) (i j : ℕ) (v : A) → i ≢ j → upd a i v j ≡ a j
upd_ne a i j v h = let e : (i == j) ≡ false = ground arith in rw e

module _ {ℓ} {A : Type ℓ} where
  abbrev pub length : List A → ℕ
  length [] = 0
  length (x ∷ xs) = suc (length xs)

  pub length-append : (xs ys : List A) → length (xs ++ ys) ≡ length xs + length ys
  length-append [] ys = omega arith
  length-append (x ∷ xs) ys = omega (arith, length-append xs ys)

-- The `n` elements from index `i` on.
abbrev pub bytes_at : Arr → ℕ → ℕ → List ℕ
bytes_at a i zero = []
bytes_at a i (suc n) = a i ∷ bytes_at a (i + 1) n

pub length-bytes_at : (a : Arr) (i n : ℕ) → length (bytes_at a i n) ≡ n
length-bytes_at a i zero = refl
length-bytes_at a i (suc n) = ap suc (length-bytes_at a (i + 1) n)

pub bytes_at_ext :
    (a b : Arr) (i n : ℕ)
    → ((j : ℕ) → i ≤ j → j < i + n → a j ≡ b j)
    → bytes_at a i n ≡ bytes_at b i n
bytes_at_ext a b i zero h = refl
bytes_at_ext a b i (suc n) h = cc (
  h i (omega arith) (omega arith),
  bytes_at_ext a b (i + 1) n (λ j le lt. h j (omega arith) (omega arith)),
)

pub bytes_at-add :
    (a : Arr) (i m n : ℕ) → bytes_at a i (m + n) ≡ bytes_at a i m ++ bytes_at a (i + m) n
bytes_at-add a i zero n =
    let e : i + 0 ≡ i = omega arith in let e' : 0 + n ≡ n = omega arith in rw (e, e') refl
bytes_at-add a i (suc m) n =
    let e : suc m + n ≡ suc (m + n) = omega arith in
    let e' : i + suc m ≡ i + 1 + m = omega arith in
    rw (e, e') (ap (λ l. a i ∷ l) (bytes_at-add a (i + 1) m n))

-- `memcpy` of a list to offset `i` on.
unfoldable pub write_bytes : List ℕ → ℕ → Arr → Arr
write_bytes [] i mem = mem
write_bytes (b ∷ bs) i mem = write_bytes bs (i + 1) (upd mem i b)

pub write_bytes-out :
    (bs : List ℕ) (i : ℕ) (mem : Arr) (j : ℕ)
    → (j < i) ⊎ (i + length bs ≤ j)
    → write_bytes bs i mem j ≡ mem j
unfolding write_bytes
write_bytes-out [] i mem j h = refl
write_bytes-out (b ∷ bs) i mem j h = ground (arith, write_bytes-out bs (i + 1) (upd mem i b) j)

pub bytes_at-write_bytes :
    (bs : List ℕ) (i : ℕ) (mem : Arr) → bytes_at (write_bytes bs i mem) i (length bs) ≡ bs
unfolding write_bytes
bytes_at-write_bytes [] i mem = refl
bytes_at-write_bytes (b ∷ bs) i mem =
    let first : write_bytes bs (i + 1) (upd mem i b) i ≡ b =
      write_bytes-out bs (i + 1) (upd mem i b) i (inl (omega arith)) ∙ upd_self mem i b in
    cc (first, bytes_at-write_bytes bs (i + 1) (upd mem i b))

-- The bytes stand in memory from `i` on.
abbrev pub Spells : Arr → ℕ → List ℕ → Type 0
Spells a i [] = Unit
Spells a i (b ∷ bs) = (a i ≡ b) × Spells a (i + 1) bs

pub Spells-append :
    (a : Arr) (i : ℕ) (xs ys : List ℕ)
    → Spells a i (xs ++ ys)
    → Spells a i xs × Spells a (i + length xs) ys
Spells-append a i [] ys s = let e : i ≡ i + 0 = omega arith in (_, subst (λ k. Spells a k ys) e s)
Spells-append a i (x ∷ xs) ys (h, s) =
    let r = Spells-append a (i + 1) xs ys s in
    let e : i + 1 + length xs ≡ i + suc (length xs) = omega arith in
    ((h, r.0), subst (λ k. Spells a k ys) e r.1)

pub Spells-join :
    (a : Arr) (i : ℕ) (xs ys : List ℕ)
    → Spells a i xs
    → Spells a (i + length xs) ys
    → Spells a i (xs ++ ys)
Spells-join a i [] ys s t = let e : i + 0 ≡ i = omega arith in subst (λ k. Spells a k ys) e t
Spells-join a i (x ∷ xs) ys (h, s) t =
    let e : i + suc (length xs) ≡ i + 1 + length xs = omega arith in
    (h, Spells-join a (i + 1) xs ys s (subst (λ k. Spells a k ys) e t))

pub Spells-ext :
    (a b : Arr) (i : ℕ) (xs : List ℕ)
    → ((j : ℕ) → i ≤ j → j < i + length xs → b j ≡ a j)
    → Spells a i xs
    → Spells b i xs
Spells-ext a b i [] h s = _
Spells-ext a b i (x ∷ xs) h (e, s) = (
  h i (omega arith) (omega arith) ∙ e,
  Spells-ext a b (i + 1) xs (λ j le lt. h j (omega arith) (omega arith)) s,
)

pub Spells-write_bytes : (xs : List ℕ) (i : ℕ) (mem : Arr) → Spells (write_bytes xs i mem) i xs
unfolding write_bytes
Spells-write_bytes [] i mem = _
Spells-write_bytes (x ∷ xs) i mem = (
  write_bytes-out xs (i + 1) (upd mem i x) i (inl (omega arith)) ∙ upd_self mem i x,
  Spells-write_bytes xs (i + 1) (upd mem i x),
)
