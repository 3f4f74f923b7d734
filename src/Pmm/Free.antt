-- ===== src/Pmm/Free.antt =====
-- mm/pmm.c: `pmm_free` on a valid allocator, after `pmm_alloc` too, and `pmm_free_bytes`.
use epona_os.Base.{
  ℕ, zero, suc, ◌+◌, ◌-◌, ◌*◌, ◌/◌, ◌≤◌, ◌<◌, ◌≡◌, refl, ◌≢◌, ◌⊎◌, inl, inr, true, false, ◌&&◌, not,
  arith, Arr, ltb, ◌==◌, Bool-cases,
}
use epona_os.Pmm.{Pmm, page_size, bm_clear, bm_test, alloc, free, free_bytes}
use epona_os.Pmm.Bitmap.{is_used, bm_clear-Bytes, is_used-bm_clear}
use epona_os.Pmm.Count.{count_used, count_used-le, IsValid, count_used-bm_clear}
use epona_os.Pmm.Alloc.{AllocResult, alloc_first_free}

-- `t` is `s` with frame `f`, which was in use, freed.
pub record Released (s t : Pmm) (f : ℕ) : Type 0 where
  pub was_used : is_used s.bitmap f ≡ true
  pub in_range : f < s.total_frames
  pub total : t.total_frames ≡ s.total_frames
  pub used : t.used_frames + 1 ≡ s.used_frames
  pub bits : (g : ℕ) → is_used t.bitmap g ≡ (is_used s.bitmap g && not (f == g))

clear_counted :
    (s : Pmm) (f : ℕ)
    → IsValid s
    → f < s.total_frames
    → is_used s.bitmap f ≡ true
    → s.used_frames ≡ count_used s.total_frames (bm_clear s.bitmap f) + 1
clear_counted s f v lt e =
    omega (arith, v.counted, count_used-bm_clear s.bitmap f v.bytes s.total_frames lt e)

release :
    (s : Pmm) (f : ℕ)
    → IsValid s
    → f < s.total_frames
    → is_used s.bitmap f ≡ true
    → let t : Pmm = record s { bitmap = bm_clear s.bitmap f; used_frames = s.used_frames - 1 } in
      IsValid t × Released s t f
release s f v lt e = (
  record {
    bytes = bm_clear-Bytes s.bitmap f v.bytes;
    small = v.small;
    counted = omega (arith, clear_counted s f v lt e);
  },
  record {
    was_used = e;
    in_range = lt;
    total = refl;
    used = omega (arith, clear_counted s f v lt e);
    bits = λ g. ground (arith, is_used-bm_clear s.bitmap f g v.bytes);
  },
)

-- On a valid allocator `pmm_free` leaves it valid. If the address lies in a frame that the
-- allocator has and that is in use, it frees that frame, counts it, and changes no other frame;
-- if the frame is out of range or free already, it changes nothing.
pub free_lem :
    (s : Pmm) (p : ℕ)
    → IsValid s
    → IsValid (free p s)
      × (Released s (free p s) (p / page_size)
          ⊎ (((s.total_frames ≤ p / page_size) ⊎ (is_used s.bitmap (p / page_size) ≡ false))
              × (free p s ≡ s)))
unfolding free
free_lem s p v =
    let f = p / page_size in
    elim (Bool-cases (ltb f s.total_frames && not (bm_test s.bitmap f == 0))) [
      | inl hit ↦ rw hit (let r = release s f v (ground arith) (ground arith) in (r.0, inl r.1))
      | inr miss ↦ rw miss (v, inr (ground arith, refl))
    ]

-- Freeing what `pmm_alloc` has just returned, when that is not NULL, brings back the use of every
-- frame and the count.
pub free-alloc :
    (s : Pmm)
    → IsValid s
    → (alloc s).0 ≢ 0
    → let t = free (alloc s).0 (alloc s).1 in
      IsValid t
      × (t.used_frames ≡ s.used_frames)
      × ((g : ℕ) → is_used t.bitmap g ≡ is_used s.bitmap g)
free-alloc s v ne = after (alloc s) ne (alloc_first_free s v)
  where
    after :
        (r : ℕ × Pmm)
        → r.0 ≢ 0
        → AllocResult s 0 r
        → IsValid (free r.0 r.1)
          × ((free r.0 r.1).used_frames ≡ s.used_frames)
          × ((g : ℕ) → is_used (free r.0 r.1).bitmap g ≡ is_used s.bitmap g)
    after (p, t) ne (inl (z, same, all)) = absurd (ne z)
    after (p, t) ne (inr (f, lt, at, taken, all)) =
        let frame : p / page_size ≡ f = omega arith in
        let (ok, r) = free_lem t p taken.valid in
        let busy : is_used t.bitmap (p / page_size) ≡ true =
          rw frame (ground (arith, taken.bits f)) in
        elim r [
          | inl rel ↦ (
            ok,
            omega (arith, rel.used, taken.used),
            λ g. ground (arith, rel.bits g, taken.bits g, taken.were_free g),
          )
          | inr (why, same) ↦ absurd (ground (arith, taken.total))
        ]

count_used_all :
    (n : ℕ) (bm : Arr) → ((g : ℕ) → 0 ≤ g → g < n → is_used bm g ≡ true) → count_used n bm ≡ n
unfolding count_used
count_used_all zero bm h = refl
count_used_all (suc n) bm h =
    ground
      (arith, count_used_all n bm (λ g a b. h g a (omega arith)), h n (omega arith) (omega arith))

-- While `pmm_free_bytes` is not 0 and frame 0 is reserved, `pmm_alloc` on a valid allocator does
-- not return NULL, and `pmm_free_bytes` falls by one page.
pub alloc_succeeds :
    (s : Pmm)
    → IsValid s
    → is_used s.bitmap 0 ≡ true
    → 0 < free_bytes s
    → ((alloc s).0 ≢ 0) × (free_bytes (alloc s).1 + page_size ≡ free_bytes s)
unfolding free_bytes
alloc_succeeds s v zero_used room = after (alloc s) (alloc_first_free s v)
  where
    after :
        (r : ℕ × Pmm)
        → AllocResult s 0 r
        → (r.0 ≢ 0)
          × ((r.1.total_frames - r.1.used_frames) * page_size + page_size
              ≡ (s.total_frames - s.used_frames) * page_size)
    after (p, t) (inl (z, same, all)) =
        absurd (omega (arith, v.counted, count_used_all s.total_frames s.bitmap all))
    after (p, t) (inr (f, lt, at, taken, all)) =
        let ne : f ≢ 0 = ground (arith, taken.were_free f) in
        (
          omega arith,
          omega (arith, taken.used, taken.total, v.counted, count_used-le s.total_frames s.bitmap),
        )
