-- ===== src/Fat/Table.antt =====
-- fs/fat.c: what `fat_set_cluster` writes is what `fat_next_cluster` reads.
use epona_os.Base.{
  ℕ, zero, suc, ◌+◌, ◌*◌, ◌/◌, ◌%◌, ◌^◌, ◌≤◌, ◌<◌, ◌≡◌, refl, sym, ap, ◌∙◌, ◌≢◌, ◌⊎◌, inl, inr,
  Bool, true, false, not, arith, Arr, upd, upd_self, upd_ne, subst, ltb, ◌==◌, if◌then◌else◌,
  Bool-cases, if_elim, ltb→lt,
}
use native.Mathlib.Nat.{suc-mul}
use epona_os.Fat.{
  Volume, Drive, write_sector, word_at, put_word, entry_sector, ent_offset, next_cluster,
  write_copies, with_entry, set_cluster,
}

-- A volume with sectors of 512 bytes, and `extra` copies of the table behind the first.
pub record IsFat (v : Volume) (extra : ℕ) : Type 0 where
  pub sector_size : v.bytes_per_sector ≡ 512
  pub copies : v.fat_count ≡ suc extra
  pub fits : v.fat_start + suc extra * v.sectors_per_fat ≤ 2 ^ 32

-- A drive that answers.
pub record Answers (d : Drive) : Type 0 where
  pub bytes : (x i : ℕ) → d.sectors x i < 256
  pub reads : (x : ℕ) → d.readable x ≡ true
  pub writes : (x : ℕ) → d.writable x ≡ true

-- The table has an entry for the cluster.
abbrev pub InTable : Volume → ℕ → Type 0
InTable v c = (c < 2 ^ 30) × (entry_sector v c < v.sectors_per_fat)

pub word_at-put_word : (i w : ℕ) (buf : Arr) → w < 2 ^ 32 → word_at (put_word i w buf) i ≡ w
word_at-put_word i w buf lt =
    let b0 : put_word i w buf i ≡ w % 2 ^ 8 = ground arith in
    let b1 : put_word i w buf (i + 1) ≡ w / 2 ^ 8 % 2 ^ 8 = ground arith in
    let b2 : put_word i w buf (i + 2) ≡ w / 2 ^ 16 % 2 ^ 8 = ground arith in
    let b3 : put_word i w buf (i + 3) ≡ w / 2 ^ 24 % 2 ^ 8 = ground arith in
    omega (arith, b0, b1, b2, b3)

pub put_word-out : (i w j : ℕ) (buf : Arr) → (j < i) ⊎ (i + 4 ≤ j) → put_word i w buf j ≡ buf j
put_word-out i w j buf far = ground (arith, far)

word_at-out :
    (i w j : ℕ) (buf : Arr)
    → (j + 4 ≤ i) ⊎ (i + 4 ≤ j)
    → word_at (put_word i w buf) j ≡ word_at buf j
word_at-out i w j buf far =
    let b0 = put_word-out i w j buf (ground (arith, far)) in
    let b1 = put_word-out i w (j + 1) buf (ground (arith, far)) in
    let b2 = put_word-out i w (j + 2) buf (ground (arith, far)) in
    let b3 = put_word-out i w (j + 3) buf (ground (arith, far)) in omega (arith, b0, b1, b2, b3)

-- The copies from `i` on lie behind the sector `x`.
write_copies-keep :
    (v : Volume) (n i at : ℕ) (buf : Arr) (d : Drive) (x : ℕ)
    → ((y : ℕ) → d.writable y ≡ true)
    → at < v.sectors_per_fat
    → v.fat_start + i * v.sectors_per_fat + n * v.sectors_per_fat ≤ 2 ^ 32
    → x < v.fat_start + i * v.sectors_per_fat
    → ((write_copies v n i at buf d).0 ≡ 0)
      × ((write_copies v n i at buf d).1.sectors x ≡ d.sectors x)
      × ((write_copies v n i at buf d).1.readable ≡ d.readable)
unfolding write_copies
write_copies-keep v zero i at buf d x writes lt fits before = (refl, refl, refl)
write_copies-keep v (suc n) i at buf d x writes lt fits before =
    let size : ℕ = v.sectors_per_fat in
    let more : suc n * size ≡ n * size + size = suc-mul n size in
    let one : suc i ≡ i + 1 = omega arith in
    let next : (i + 1) * size ≡ i * size + size = sym (ap (λ k. k * size) one) ∙ suc-mul i size in
    let sector : ℕ = (v.fat_start + i * size + at) % 2 ^ 32 in
    let same : sector ≡ v.fat_start + i * size + at = omega (arith, fits, more, lt) in
    let ok : not (d.writable sector) ≡ false = ap not (writes sector) in
    let (zero_then, kept, reads) =
      write_copies-keep v n (i + 1) at buf (write_sector sector buf d) x writes lt
        (omega (arith, fits, more, next)) (omega (arith, before, next)) in
    rw ok (
      zero_then,
      kept ∙ upd_ne d.sectors sector x buf (λ eq. omega (arith, before, same, eq)),
      reads,
    )

-- What the first table is after all copies have been written.
abbrev pub FirstTable : Volume → (at x : ℕ) (buf : Arr) → Drive → ℕ × Drive → Type 0
FirstTable v at x buf d (r, d') =
    (r ≡ 0) × (d'.sectors x ≡ upd d.sectors (v.fat_start + at) buf x) × (d'.readable ≡ d.readable)

write_copies-FirstTable :
    (v : Volume) (extra at x : ℕ) (buf : Arr) (d : Drive)
    → IsFat v extra
    → Answers d
    → at < v.sectors_per_fat
    → x < v.fat_start + v.sectors_per_fat
    → FirstTable v at x buf d (write_copies v (suc extra) 0 at buf d)
unfolding write_copies
write_copies-FirstTable v extra at x buf d fat answers lt before =
    let size : ℕ = v.sectors_per_fat in
    let more : suc extra * size ≡ extra * size + size = suc-mul extra size in
    let sector : ℕ = (v.fat_start + 0 * size + at) % 2 ^ 32 in
    let same : sector ≡ v.fat_start + at = omega (arith, fat.fits, more, lt) in
    let ok : not (d.writable sector) ≡ false = ap not (answers.writes sector) in
    let d1 : Drive = write_sector sector buf d in
    let (zero_then, kept, reads) =
      write_copies-keep v extra (0 + 1) at buf d1 x answers.writes lt
        (omega (arith, fat.fits, more)) (omega (arith, before)) in
    rw ok (zero_then, kept ∙ ap (λ s. upd d.sectors s buf x) same, reads)

pub set_cluster-FirstTable :
    (v : Volume) (extra c value x : ℕ) (d : Drive)
    → IsFat v extra
    → Answers d
    → InTable v c
    → x < v.fat_start + v.sectors_per_fat
    → FirstTable v
        (entry_sector v c)
        x
        (with_entry (ent_offset v c) value (d.sectors (v.fat_start + entry_sector v c)))
        d
        (set_cluster v c value d)
unfolding set_cluster
set_cluster-FirstTable v extra c value x d fat answers (small, inside) before =
    let at : ℕ = entry_sector v c in
    let sector : ℕ = (v.fat_start + at) % 2 ^ 32 in
    let more : suc extra * v.sectors_per_fat ≡ extra * v.sectors_per_fat + v.sectors_per_fat =
      suc-mul extra v.sectors_per_fat in
    let same : sector ≡ v.fat_start + at = omega (arith, fat.fits, more, inside) in
    let ok : not (d.readable sector) ≡ false = ap not (answers.reads sector) in
    let buf : ℕ → Arr = λ s. with_entry (ent_offset v c) value (d.sectors s) in
    let P : ℕ × Drive → Type 0 = FirstTable v at x (buf (v.fat_start + at)) d in
    let copies : write_copies v v.fat_count 0 at (buf sector) d
        ≡ write_copies v (suc extra) 0 at (buf (v.fat_start + at)) d =
      ap (λ n. write_copies v n 0 at (buf sector) d) fat.copies
      ∙ ap (λ s. write_copies v (suc extra) 0 at (buf s) d) same in
    if_elim P (not (d.readable sector)) (λ lost. absurd (cc (lost, ok)))
      (λ found.
        subst P (sym copies) (
          write_copies-FirstTable v extra at x (buf (v.fat_start + at)) d fat answers inside
            before))

-- The entry of a cluster in a sector of the table after the change of the entry of another one or the same.
word_at-with_entry :
    (v : Volume) (c c' value : ℕ) (buf : Arr)
    → v.bytes_per_sector ≡ 512
    → ((i : ℕ) → buf i < 256)
    → c < 2 ^ 30
    → c' < 2 ^ 30
    → entry_sector v c ≡ entry_sector v c'
    → word_at (with_entry (ent_offset v c) value buf) (ent_offset v c') % 2 ^ 28
      ≡ (if c == c' then value % 2 ^ 28 else word_at buf (ent_offset v c') % 2 ^ 28)
word_at-with_entry v c c' value buf size bytes lt lt' same =
    let o : ent_offset v c ≡ c * 4 % 2 ^ 32 % 512 = ap (λ b. c * 4 % 2 ^ 32 % b) size in
    let o' : ent_offset v c' ≡ c' * 4 % 2 ^ 32 % 512 = ap (λ b. c' * 4 % 2 ^ 32 % b) size in
    let in_sector : c * 4 % 2 ^ 32 / 512 ≡ c' * 4 % 2 ^ 32 / 512 =
      sym (ap (λ b. c * 4 % 2 ^ 32 / b) size) ∙ same ∙ ap (λ b. c' * 4 % 2 ^ 32 / b) size in
    let i : ℕ = ent_offset v c in
    let old : ℕ = word_at buf i in
    let word : ℕ = old / 2 ^ 28 * 2 ^ 28 + value % 2 ^ 28 in
    let small : word < 2 ^ 32 =
      omega (arith, bytes i, bytes (i + 1), bytes (i + 2), bytes (i + 3)) in
    elim (Bool-cases (c == c')) [
      | inl e ↦
          let eq : c' ≡ c = ground (arith, e) in
          rw e (
            ap (λ k. word_at (put_word i word buf) (ent_offset v k) % 2 ^ 28) eq
            ∙ ap (λ w. w % 2 ^ 28) (word_at-put_word i word buf small)
            ∙ omega arith)
      | inr e ↦
          let ne : c ≢ c' = ground (arith, e) in
          let far : (ent_offset v c' + 4 ≤ i) ⊎ (i + 4 ≤ ent_offset v c') =
            elim (Bool-cases (ltb c c')) [
              | inl before ↦ inr (omega (arith, o, o', in_sector, lt, lt', ltb→lt c c' before))
              | inr behind ↦
                  let le : c' ≤ c = ground (arith, behind) in
                  inl (omega (arith, o, o', in_sector, lt, lt', le, ne))
            ] in
          rw e (ap (λ w. w % 2 ^ 28) (word_at-out i word (ent_offset v c') buf far))
    ]

-- The sector of the entry is read, at its number.
pub next_cluster_lem :
    (v : Volume) (extra c : ℕ) (d : Drive)
    → IsFat v extra
    → InTable v c
    → ((x : ℕ) → d.readable x ≡ true)
    → next_cluster v c d
      ≡ word_at (d.sectors (v.fat_start + entry_sector v c)) (ent_offset v c) % 2 ^ 28
unfolding next_cluster
next_cluster_lem v extra c d fat (small, inside) reads =
    let sector : ℕ = (v.fat_start + entry_sector v c) % 2 ^ 32 in
    let more : suc extra * v.sectors_per_fat ≡ extra * v.sectors_per_fat + v.sectors_per_fat =
      suc-mul extra v.sectors_per_fat in
    let same : sector ≡ v.fat_start + entry_sector v c = omega (arith, fat.fits, more, inside) in
    let ok : not (d.readable sector) ≡ false = ap not (reads sector) in
    rw ok (ap (λ s. word_at (d.sectors s) (ent_offset v c) % 2 ^ 28) same)

-- On a drive that answers, `fat_set_cluster` of a cluster of the table succeeds, and then `fat_next_cluster` reads the
-- low 28 bits of the value for this cluster, and for every other cluster of the table what it read before.
pub next_cluster-set_cluster :
    (v : Volume) (extra c value c' : ℕ) (d : Drive)
    → IsFat v extra
    → Answers d
    → InTable v c
    → InTable v c'
    → ((set_cluster v c value d).0 ≡ 0)
      × (next_cluster v c' (set_cluster v c value d).1
          ≡ (if c == c' then value % 2 ^ 28 else next_cluster v c' d))
next_cluster-set_cluster v extra c value c' d fat answers in_table in_table' =
    let x : ℕ = v.fat_start + entry_sector v c' in
    let s0 : ℕ = v.fat_start + entry_sector v c in
    let buf : Arr = with_entry (ent_offset v c) value (d.sectors s0) in
    let d' : Drive = (set_cluster v c value d).1 in
    let (done, kept, same_reads) =
      set_cluster-FirstTable v extra c value x d fat answers in_table
        (omega (arith, in_table'.1)) in
    let reads : (y : ℕ) → d'.readable y ≡ true =
      λ y. ap (λ (r : ℕ → Bool). r y) same_reads ∙ answers.reads y in
    let before : next_cluster v c' d ≡ word_at (d.sectors x) (ent_offset v c') % 2 ^ 28 =
      next_cluster_lem v extra c' d fat in_table' answers.reads in
    let after : next_cluster v c' d' ≡ word_at (upd d.sectors s0 buf x) (ent_offset v c') % 2 ^ 28 =
      next_cluster_lem v extra c' d' fat in_table' reads
      ∙ ap (λ (b : Arr). word_at b (ent_offset v c') % 2 ^ 28) kept in
    elim (Bool-cases (entry_sector v c == entry_sector v c')) [
      | inl e ↦
          let same : entry_sector v c ≡ entry_sector v c' = ground (arith, e) in
          let at : x ≡ s0 = omega (arith, same) in
          let here : upd d.sectors s0 buf x ≡ buf =
            ap (upd d.sectors s0 buf) at ∙ upd_self d.sectors s0 buf in
          let old : word_at (d.sectors s0) (ent_offset v c') % 2 ^ 28 ≡ next_cluster v c' d =
            ap (λ s. word_at (d.sectors s) (ent_offset v c') % 2 ^ 28) (sym at) ∙ sym before in
          (
            done,
            after
                ∙ ap (λ (b : Arr). word_at b (ent_offset v c') % 2 ^ 28) here
                ∙ word_at-with_entry v c c' value (d.sectors s0) fat.sector_size (answers.bytes s0)
                    in_table.0 in_table'.0 same
                ∙ ap (λ n. if c == c' then value % 2 ^ 28 else n) old,
          )
      | inr e ↦
          let ne : entry_sector v c ≢ entry_sector v c' = ground (arith, e) in
          let far : s0 ≢ x = λ eq. ne (omega (arith, eq)) in
          let other : (c == c') ≡ false = elim (Bool-cases (c == c')) [
            | inl eq ↦
                let same : c ≡ c' = ground (arith, eq) in absurd (ne (ap (entry_sector v) same))
            | inr no_eq ↦ no_eq
          ] in
          (
            done,
            after
                ∙ ap (λ (b : Arr). word_at b (ent_offset v c') % 2 ^ 28)
                    (upd_ne d.sectors s0 x buf far)
                ∙ sym before
                ∙ sym (ap (λ b. if b then value % 2 ^ 28 else next_cluster v c' d) other),
          )
    ]
