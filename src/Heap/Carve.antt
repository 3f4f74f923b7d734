-- ===== src/Heap/Carve.antt =====
-- mm/heap.c: kmalloc takes the first block that is large enough.
use epona_os.Base.{
  ℕ, zero, suc, ◌+◌, ◌-◌, ◌≤◌, ◌<◌, ◌≡◌, refl, sym, ap, ◌∙◌, ◌≢◌, ◌⊎◌, inl, inr, Bool, true, false,
  ◌&&◌, Option, none, some, List, [], ◌∷◌, arith, upd, upd_self, upd_ne, subst, length, leb, ◌==◌,
  if◌then◌else◌, Bool-cases, if_elim,
}
use epona_os.Heap.{min_block, Header, Headers, link_back, take_block, search}

-- Blocks as sizes and whether they are free, one behind the other in memory.
abbrev pub Blocks : Type 0
Blocks = List (ℕ × Bool)

-- The address of the first block, NULL if there is none.
abbrev pub first : ℕ → Blocks → ℕ
first a [] = 0
first a (_ ∷ _) = a

-- The headers from address `a` on are these blocks, each linked with its neighbours.
abbrev pub ChainAt : Headers → (a prev : ℕ) → Blocks → Type 0
ChainAt h a prev [] = Unit
ChainAt h a prev ((n, f) ∷ bs) =
    (h a ≡ record { size = n; free = f; next = first (a + n) bs; prev = prev })
    × (min_block ≤ n)
    × ChainAt h (a + n) a bs

-- What taking a block of size `total` does to the blocks, and its offset.
pub carve : (total : ℕ) → Blocks → Option (ℕ × Blocks)
carve total [] = none
carve total ((n, f) ∷ bs) =
    let here : Blocks =
      if leb (total + min_block) n
      then (total, false) ∷ (n - total, true) ∷ bs
      else (n, false) ∷ bs in
    let later : Option (ℕ × Blocks) = elim (carve total bs) [
      | none ↦ none
      | some (off, bs') ↦ some (n + off, (n, f) ∷ bs')
    ] in
    if f && leb total n then some (0, here) else later

ChainAt-ext :
    (h h' : Headers) (a prev : ℕ) (bs : Blocks)
    → ((j : ℕ) → a ≤ j → h' j ≡ h j)
    → ChainAt h a prev bs
    → ChainAt h' a prev bs
ChainAt-ext h h' a prev [] same c = _
ChainAt-ext h h' a prev ((n, f) ∷ bs) same (e, min, c) =
    (same a (omega arith) ∙ e, min, ChainAt-ext h h' (a + n) a bs (λ j le. same j (omega arith)) c)

-- The first block gets another one before it.
ChainAt-link_back :
    (h : Headers) (a prev to : ℕ) (bs : Blocks)
    → 0 < a
    → ChainAt h a prev bs
    → ChainAt (link_back (first a bs) to h) a to bs
ChainAt-link_back h a prev to [] pos c = _
ChainAt-link_back h a prev to ((n, f) ∷ bs) pos (e, min, c) =
    let z : (a == 0) ≡ false = ground arith in
    let set : Headers = upd h a (record (h a) { prev = to }) in
    let eq : link_back a to h ≡ set = ap (λ b. if b then h else set) z in
    subst (λ t. ChainAt t a to ((n, f) ∷ bs)) (sym eq)
      (
        upd_self h a _ ∙ ap (λ (b : Header). record b { prev = to }) e,
        min,
        ChainAt-ext h set (a + n) a bs (λ j le. upd_ne h a j _ (omega arith)) c,
      )

link_back-other : (next to j : ℕ) (h : Headers) → next ≢ j → link_back next to h j ≡ h j
link_back-other next to j h ne =
    if_elim (λ (t : Headers). t j ≡ h j) (next == 0) (λ e. refl) (λ e. upd_ne h next j _ ne)

-- The chain after a block has been taken, and what is before it stays.
pub record Taken (a prev : ℕ) (bs : Blocks) (h h' : Headers) : Type 0 where
  pub chain : ChainAt h' a prev bs
  pub before : (j : ℕ) → j < a → h' j ≡ h j

link_back-first :
    (a to j : ℕ) (bs : Blocks) (h : Headers) → a ≢ j → link_back (first a bs) to h j ≡ h j
link_back-first a to j [] h ne = refl
link_back-first a to j (_ ∷ _) h ne = link_back-other a to j h ne

-- A block is split.
split_lem :
    (a prev total n : ℕ) (f : Bool) (bs : Blocks) (h : Headers)
    → 0 < a
    → min_block ≤ total
    → total + min_block ≤ n
    → ChainAt h a prev ((n, f) ∷ bs)
    → Taken a prev ((total, false) ∷ (n - total, true) ∷ bs) h (take_block a total h)
unfolding take_block
split_lem a prev total n f bs h pos small le (e, min, c) =
    let size_e = ap (λ (b : Header). b.size) e in
    let next_e = ap (λ (b : Header). b.next) e in
    let fits : leb (total + min_block) (h a).size ≡ true = ground (arith, size_e) in
    let new_h : ℕ = a + total in
    let new_block : Header = record {
      size = (h a).size - total;
      free = true;
      next = (h a).next;
      prev = a;
    } in
    let h1 : Headers = upd h new_h new_block in
    let h2 : Headers = link_back (h a).next new_h h1 in
    let h3 : Headers = upd h2 a (record (h a) { size = total; next = new_h; free = false }) in
    let e' : a + total + (n - total) ≡ a + n = omega arith in
    let c1 = ChainAt-ext h h1 (a + n) a bs (λ j le'. upd_ne h new_h j _ (omega arith)) c in
    let c2 : ChainAt h2 (a + n) new_h bs =
      subst (λ k. ChainAt (link_back k new_h h1) (a + n) new_h bs) (sym next_e)
        (ChainAt-link_back h1 (a + n) a new_h bs (omega arith) c1) in
    let c3 = ChainAt-ext h2 h3 (a + n) new_h bs (λ j le'. upd_ne h2 a j _ (omega arith)) c2 in
    let linked : (j : ℕ) → a + n ≢ j → h2 j ≡ h1 j =
      λ j ne. ap (λ k. link_back k new_h h1 j) next_e ∙ link_back-first (a + n) new_h j bs h1 ne in
    let known : new_block ≡ record {
      size = n - total;
      free = true;
      next = first (a + total + (n - total)) bs;
      prev = a;
    } =
      ap (λ (b : Header). record { size = b.size - total; free = true; next = b.next; prev = a }) e
      ∙ ap (λ k. record { size = n - total; free = true; next = first k bs; prev = a }) (sym e') in
    let new_e : h3 new_h ≡ new_block =
      upd_ne h2 a new_h _ (omega arith) ∙ linked new_h (omega arith) ∙ upd_self h new_h new_block in
    let plain : Headers = upd h a (record (h a) { free = false }) in
    let eq : take_block a total h ≡ h3 = ap (λ b. if b then h3 else plain) fits in
    subst (Taken a prev ((total, false) ∷ (n - total, true) ∷ bs) h) (sym eq) (record {
      chain = (
        upd_self h2 a _
            ∙ ap (λ (b : Header). record b { size = total; next = new_h; free = false }) e,
        small,
        (new_e ∙ known, omega arith, subst (λ k. ChainAt h3 k new_h bs) (sym e') c3),
      );
      before = λ j lt.
          upd_ne h2 a j _ (omega arith) ∙ linked j (omega arith) ∙ upd_ne h new_h j _ (omega arith);
    })

-- A block is taken whole.
whole_lem :
    (a prev total n : ℕ) (f : Bool) (bs : Blocks) (h : Headers)
    → n < total + min_block
    → ChainAt h a prev ((n, f) ∷ bs)
    → 0 < n
    → Taken a prev ((n, false) ∷ bs) h (take_block a total h)
unfolding take_block
whole_lem a prev total n f bs h lt (e, min, c) pos =
    let size_e = ap (λ (b : Header). b.size) e in
    let tight : leb (total + min_block) (h a).size ≡ false = ground (arith, size_e) in
    let plain : Headers = upd h a (record (h a) { free = false }) in
    let split : Headers =
      upd
        (link_back (h a).next (a + total) (
          upd h (a + total)
            (record { size = (h a).size - total; free = true; next = (h a).next; prev = a })))
        a (record (h a) { size = total; next = a + total; free = false }) in
    let eq : take_block a total h ≡ plain = ap (λ b. if b then split else plain) tight in
    subst (Taken a prev ((n, false) ∷ bs) h) (sym eq) (record {
      chain = (
        upd_self h a _ ∙ ap (λ (b : Header). record b { free = false }) e,
        min,
        ChainAt-ext h plain (a + n) a bs (λ j le. upd_ne h a j _ (omega arith)) c,
      );
      before = λ j lt'. upd_ne h a j _ (omega arith);
    })

-- The search on the blocks is `carve`.
pub record Found (a prev total off : ℕ) (bs bs' : Blocks) (h : Headers) (r : Option (ℕ × Headers))
    : Type 0 where
  pub h' : Headers
  pub result : r ≡ some (a + off, h')
  pub taken : Taken a prev bs' h h'
  pub same_first : (x : ℕ) → first x bs' ≡ first x bs
  pub carved : carve total bs ≡ some (off, bs')

pub search_lem :
    (fuel a prev total : ℕ) (bs : Blocks) (h : Headers)
    → 0 < a
    → min_block ≤ total
    → length bs < fuel
    → ChainAt h a prev bs
    → ((carve total bs ≡ none) × (search fuel (first a bs) total h ≡ none))
      ⊎ ((off : ℕ) × (bs' : Blocks) × Found a prev total off bs bs' h
            (search fuel (first a bs) total h))
unfolding search carve
search_lem zero a prev total bs h pos small lt c = absurd (omega arith)
search_lem (suc fuel) a prev total [] h pos small lt c = inl (refl, refl)
search_lem (suc fuel) a prev total ((n, f) ∷ bs) h pos small lt (e, min, c) =
    let size_e = ap (λ (b : Header). b.size) e in
    let free_e = ap (λ (b : Header). b.free) e in
    let next_e = ap (λ (b : Header). b.next) e in
    let z : (a == 0) ≡ false = ground arith in
    let test : ((h a).free && leb total (h a).size) ≡ (f && leb total n) =
      ap (λ (b : Header). b.free && leb total b.size) e in
    elim (Bool-cases (f && leb total n)) [
      | inl fits ↦
          let s : search (suc fuel) a total h ≡ some (a, take_block a total h) =
            rw (z, test ∙ fits) refl in
          elim (Bool-cases (leb (total + min_block) n)) [
            | inl room ↦ inr (
              0,
              (total, false) ∷ (n - total, true) ∷ bs,
              record {
                h' = take_block a total h;
                result = s ∙ ap (λ k. some (k, take_block a total h)) (omega arith);
                taken = split_lem a prev total n f bs h pos small (ground arith) (e, min, c);
                same_first = λ x. refl;
                carved = rw (fits, room) refl;
              },
            )
            | inr tight ↦ inr (
              0,
              (n, false) ∷ bs,
              record {
                h' = take_block a total h;
                result = s ∙ ap (λ k. some (k, take_block a total h)) (omega arith);
                taken = whole_lem a prev total n f bs h (ground arith) (e, min, c) (omega arith);
                same_first = λ x. refl;
                carved = rw (fits, tight) refl;
              },
            )
          ]
      | inr no_fit ↦
          let s : search (suc fuel) a total h ≡ search fuel (first (a + n) bs) total h =
            rw (z, test ∙ no_fit) (ap (λ k. search fuel k total h) next_e) in
          elim (search_lem fuel (a + n) a total bs h (omega arith) small (omega arith) c) [
            | inl (none_c, none_s) ↦ inl (rw (no_fit, none_c) refl, s ∙ none_s)
            | inr (off, bs', t) ↦ inr (
              n + off,
              (n, f) ∷ bs',
              record {
                h' = t.h';
                result = s ∙ t.result ∙ ap (λ k. some (k, t.h')) (omega arith);
                taken = record {
                  chain = (
                    t.taken.before a (omega arith)
                        ∙ e
                        ∙ ap (λ k. record { size = n; free = f; next = k; prev = prev })
                            (sym (t.same_first (a + n))),
                    min,
                    t.taken.chain,
                  );
                  before = λ j lt'. t.taken.before j (omega arith);
                };
                same_first = λ x. refl;
                carved = rw (no_fit, t.carved) refl;
              },
            )
          ]
    ]
