-- ===== src/Pmm/Bitmap.antt =====
-- mm/pmm.c: what the three bit operations do to the set of frames in use.
use epona_os.Base.{
  ℕ, ◌/◌, ◌%◌, ◌^◌, ◌<◌, ◌≡◌, refl, Bool, true, false, ◌&&◌, not, bit_and, bit_or, bit_xor, arith,
  Arr, ltb, ◌==◌, ==_iff, if◌then◌else◌, all_below, all_below_sound, &&_split, ltb→lt,
}
use epona_os.Pmm.{bm_set, bm_clear, bm_test}

-- Every entry is a byte.
abbrev pub Bytes : Arr → Type 0
Bytes bm = (i : ℕ) → bm i < 256

-- Frame `f` is in use.
abbrev pub is_used : Arr → ℕ → Bool
is_used bm f = not (bm_test bm f == 0)

-- The two updates of a byte, at every byte, every bit `k` and every bit `j`.
set_table :
    all_below 256 (λ b. all_below 8 (λ k.
      ltb (bit_or b (2 ^ k)) 256
      && all_below 8 (λ j.
        bit_and (bit_or b (2 ^ k)) (2 ^ j) == (if k == j then 2 ^ j else bit_and b (2 ^ j)))))
    ≡ true
unfolding all_below
set_table = refl

clear_table :
    all_below 256 (λ b. all_below 8 (λ k.
      ltb (bit_and b (bit_xor 255 (2 ^ k))) 256
      && all_below 8 (λ j.
        bit_and (bit_and b (bit_xor 255 (2 ^ k))) (2 ^ j)
        == (if k == j then 0 else bit_and b (2 ^ j)))))
    ≡ true
unfolding all_below
clear_table = refl

abbrev SetBit : ℕ → ℕ → ℕ → Type 0
SetBit b k j = bit_and (bit_or b (2 ^ k)) (2 ^ j) ≡ (if k == j then 2 ^ j else bit_and b (2 ^ j))

abbrev ClearBit : ℕ → ℕ → ℕ → Type 0
ClearBit b k j =
    bit_and (bit_and b (bit_xor 255 (2 ^ k))) (2 ^ j) ≡ (if k == j then 0 else bit_and b (2 ^ j))

set_byte : (b k j : ℕ) → b < 256 → k < 8 → j < 8 → (bit_or b (2 ^ k) < 256) × SetBit b k j
set_byte b k j hb hk hj =
    let row = &&_split _ _ (all_below_sound 8 _ k (all_below_sound 256 _ b set_table hb) hk) in
    (ltb→lt _ _ row.0, (==_iff _ _).0 (all_below_sound 8 _ j row.1 hj))

clear_byte :
    (b k j : ℕ) → b < 256 → k < 8 → j < 8 → (bit_and b (bit_xor 255 (2 ^ k)) < 256) × ClearBit b k j
clear_byte b k j hb hk hj =
    let row = &&_split _ _ (all_below_sound 8 _ k (all_below_sound 256 _ b clear_table hb) hk) in
    (ltb→lt _ _ row.0, (==_iff _ _).0 (all_below_sound 8 _ j row.1 hj))

pub bm_set-Bytes : (bm : Arr) (f : ℕ) → Bytes bm → Bytes (bm_set bm f)
unfolding bm_set
bm_set-Bytes bm f h i =
    ground (arith, h i, set_byte (bm (f / 8)) (f % 8) 0 (h (f / 8)) (omega arith) (omega arith))

pub bm_clear-Bytes : (bm : Arr) (f : ℕ) → Bytes bm → Bytes (bm_clear bm f)
unfolding bm_clear
bm_clear-Bytes bm f h i =
    ground (arith, h i, clear_byte (bm (f / 8)) (f % 8) 0 (h (f / 8)) (omega arith) (omega arith))

bit_pos : (k : ℕ) → k < 8 → 0 < 2 ^ k
unfolding all_below
bit_pos k h = ltb→lt 0 (2 ^ k) (all_below_sound 8 (λ j. ltb 0 (2 ^ j)) k refl h)

same_frame : (f g : ℕ) → f / 8 ≡ g / 8 → f % 8 ≡ g % 8 → f ≡ g
same_frame f g p q = omega arith

module _ (bm : Arr) (f g : ℕ) (bytes : Bytes bm) where
  -- `bm_set` puts frame `f` in use and changes no other frame.
  pub is_used-bm_set : is_used (bm_set bm f) g ≡ (if f == g then true else is_used bm g)
  unfolding bm_set bm_test
  is_used-bm_set =
      let facts =
        set_byte (bm (f / 8)) (f % 8) (g % 8) (bytes (f / 8)) (omega arith) (omega arith) in
      ground (arith, facts, bit_pos (g % 8), same_frame f g)

  -- `bm_clear` frees frame `f` and changes no other frame.
  pub is_used-bm_clear : is_used (bm_clear bm f) g ≡ (if f == g then false else is_used bm g)
  unfolding bm_clear bm_test
  is_used-bm_clear =
      let facts =
        clear_byte (bm (f / 8)) (f % 8) (g % 8) (bytes (f / 8)) (omega arith) (omega arith) in
      ground (arith, facts, same_frame f g)
