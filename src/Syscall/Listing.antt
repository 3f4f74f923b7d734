-- ===== src/Syscall/Listing.antt =====
-- kernel/syscall.c: the listing of a directory in the caller's buffer.
use epona_os.Base.{
  ℕ, zero, suc, ◌+◌, ◌-◌, ◌/◌, ◌%◌, ◌≤◌, ◌<◌, ◌≡◌, refl, ◌∙◌, ◌⊎◌, true, List, [], ◌∷◌, arith, Arr,
  upd, upd_self, upd_ne, ltb, ◌==◌, if◌then◌else◌, if_elim, codes,
}
use epona_os.Vfs.{vfs_dir}

-- `readdir_ctx`; the buffer stands in memory.
pub record ReaddirCtx : Type 0 where
  pub buf : ℕ
  pub cap : ℕ
  pub used : ℕ

unfoldable pub readdir_append : List ℕ → ReaddirCtx → Arr → ReaddirCtx × Arr
readdir_append [] ctx mem = (ctx, mem)
readdir_append (c ∷ s) ctx mem =
    let rest =
      readdir_append s (record ctx { used = ctx.used + 1 }) (upd mem (ctx.buf + ctx.used) c) in
    if ltb (ctx.used + 1) ctx.cap then rest else (ctx, mem)

-- The loop over the digits of `readdir_cb`, from the end of its ten places: `digits` is what is there already.
unfoldable pub size_digits : (places size : ℕ) → (digits : List ℕ) → List ℕ
size_digits zero size digits = digits
size_digits (suc places) size digits =
    let rest = size_digits places (size / 10) ((b'0' + size % 10) ∷ digits) in
    if size == 0 then digits else rest

unfoldable pub size_text : ℕ → List ℕ
size_text size = if size == 0 then b'0' ∷ [] else size_digits 10 size []

-- `readdir_cb`, for the name, the size and the flags of an entry.
unfoldable pub readdir_cb : (List ℕ × ℕ × ℕ) → ReaddirCtx → Arr → ReaddirCtx × Arr
readdir_cb (name, size, flags) ctx mem =
    let (ctx1, mem1) = readdir_append name ctx mem in
    let (ctx_d, mem_d) = readdir_append (codes "/") ctx1 mem1 in
    let (ctx2, mem2) = readdir_append (codes "  ") ctx1 mem1 in
    let (ctx3, mem3) = readdir_append (size_text size) ctx2 mem2 in
    let (ctx_f, mem_f) = readdir_append (codes " bytes") ctx3 mem3 in
    if flags / vfs_dir % 2 == 1
    then readdir_append (codes "\n") ctx_d mem_d
    else readdir_append (codes "\n") ctx_f mem_f

-- The calls of the callback, one for each entry.
unfoldable pub list_all : List (List ℕ × ℕ × ℕ) → ReaddirCtx → Arr → ReaddirCtx × Arr
list_all [] ctx mem = (ctx, mem)
list_all (e ∷ es) ctx mem = let (ctx', mem') = readdir_cb e ctx mem in list_all es ctx' mem'

-- The listing and its end of string: how much is used, and the memory. The buffer is not empty.
unfoldable pub write_listing : (out cap : ℕ) → List (List ℕ × ℕ × ℕ) → Arr → ℕ × Arr
write_listing out cap es mem =
    let (ctx, mem') = list_all es (record { buf = out; cap = cap; used = 0 }) mem in
    let last = if ltb ctx.used cap then ctx.used else cap - 1 in (ctx.used, upd mem' (out + last) 0)

-- What is written stays in the buffer.
pub record Inside (buf cap : ℕ) (mem : Arr) (r : ReaddirCtx × Arr) : Type 0 where
  pub buf_same : r.0.buf ≡ buf
  pub cap_same : r.0.cap ≡ cap
  pub fits : r.0.used < cap
  pub outside : (j : ℕ) → (j < buf) ⊎ (buf + cap ≤ j) → r.1 j ≡ mem j

readdir_append-Inside :
    (s : List ℕ) (buf cap : ℕ) (mem0 : Arr) (ctx : ReaddirCtx) (mem : Arr)
    → Inside buf cap mem0 (ctx, mem)
    → Inside buf cap mem0 (readdir_append s ctx mem)
unfolding readdir_append
readdir_append-Inside [] buf cap mem0 ctx mem i = i
readdir_append-Inside (c ∷ s) buf cap mem0 ctx mem i =
    if_elim (Inside buf cap mem0) (ltb (ctx.used + 1) ctx.cap)
      (λ e.
        readdir_append-Inside s buf cap mem0 (record ctx { used = ctx.used + 1 })
          (upd mem (ctx.buf + ctx.used) c)
          (record {
            buf_same = i.buf_same;
            cap_same = i.cap_same;
            fits = ground (arith, i.cap_same);
            outside = λ j o.
                upd_ne mem (ctx.buf + ctx.used) j c
                  (ground (arith, o, i.buf_same, i.cap_same, i.fits))
                ∙ i.outside j o;
          }))
      (λ e. i)

readdir_cb-Inside :
    (e : List ℕ × ℕ × ℕ) (buf cap : ℕ) (mem0 : Arr) (ctx : ReaddirCtx) (mem : Arr)
    → Inside buf cap mem0 (ctx, mem)
    → Inside buf cap mem0 (readdir_cb e ctx mem)
unfolding readdir_cb
readdir_cb-Inside (name, size, flags) buf cap mem0 ctx mem i =
    let step = λ (t : List ℕ) (r : ReaddirCtx × Arr) (h : Inside buf cap mem0 r).
      readdir_append-Inside t buf cap mem0 r.0 r.1 h in
    let named = step name (ctx, mem) i in
    if_elim (Inside buf cap mem0) (flags / vfs_dir % 2 == 1)
      (λ _. step (codes "\n") _ (step (codes "/") _ named))
      (λ _.
        step (codes "\n") _
          (step (codes " bytes") _ (step (size_text size) _ (step (codes "  ") _ named))))

list_all-Inside :
    (es : List (List ℕ × ℕ × ℕ)) (buf cap : ℕ) (mem0 : Arr) (ctx : ReaddirCtx) (mem : Arr)
    → Inside buf cap mem0 (ctx, mem)
    → Inside buf cap mem0 (list_all es ctx mem)
unfolding list_all
list_all-Inside [] buf cap mem0 ctx mem i = i
list_all-Inside (e ∷ es) buf cap mem0 ctx mem i =
    list_all-Inside es buf cap mem0 (readdir_cb e ctx mem).0 (readdir_cb e ctx mem).1
      (readdir_cb-Inside e buf cap mem0 ctx mem i)

-- The listing that SYS_READDIR writes stays in its buffer of `cap` bytes, where that is at least one,
-- whatever the directory holds: at most `cap - 1` are used, the end of string stands behind them, and no
-- other byte of memory is written.
pub write_listing_lem :
    (out cap : ℕ) (es : List (List ℕ × ℕ × ℕ)) (mem : Arr) (j : ℕ)
    → 0 < cap
    → (j < out) ⊎ (out + cap ≤ j)
    → ((write_listing out cap es mem).0 < cap)
      × ((write_listing out cap es mem).1 (out + (write_listing out cap es mem).0) ≡ 0)
      × ((write_listing out cap es mem).1 j ≡ mem j)
unfolding write_listing
write_listing_lem out cap es mem j pos o =
    let ctx : ReaddirCtx = record { buf = out; cap = cap; used = 0 } in
    let i =
      list_all-Inside es out cap mem ctx mem
        (record { buf_same = refl; cap_same = refl; fits = pos; outside = λ k _. refl }) in
    let r = list_all es ctx mem in
    let fits : ltb r.0.used cap ≡ true = ground (arith, i.fits) in
    rw fits (
      i.fits,
      upd_self r.1 (out + r.0.used) 0,
      upd_ne r.1 (out + r.0.used) j 0 (ground (arith, o, i.fits)) ∙ i.outside j o,
    )
