-- ===== src/Fat/Entry.antt =====
-- fs/fat.c: what `fat_set_cluster` changes in the first copy of the table, which is the one that is read.
use epona_os.Base.{
  ℕ, ◌+◌, ◌*◌, ◌/◌, ◌%◌, ◌^◌, ◌≤◌, ◌<◌, ◌≡◌, sym, ap, ◌∙◌, ◌≢◌, ◌⊎◌, inl, inr, arith, Arr, upd,
  upd_self, upd_ne, ◌==◌, if◌then◌else◌, Bool-cases,
}
use epona_os.Fat.{
  Volume, Drive, word_at, entry_sector, ent_offset, next_cluster, with_entry, set_cluster,
}
use epona_os.Fat.Table.{
  IsFat, Answers, InTable, word_at-put_word, put_word-out, set_cluster-FirstTable,
  next_cluster-set_cluster,
}

-- On a drive that answers, with sectors of 512 bytes, `fat_set_cluster` of a cluster of the table succeeds;
-- then `fat_next_cluster` reads the low 28 bits of the value for this cluster, and for every other cluster
-- of the table what it read before; the highest four bits of the entry stay as they were; and no byte of the
-- first table, or in front of it, has changed but the four of the entry.
pub set_cluster_lem :
    (v : Volume) (extra c value c' x j : ℕ) (d : Drive)
    → IsFat v extra
    → Answers d
    → InTable v c
    → InTable v c'
    → x < v.fat_start + v.sectors_per_fat
    → (x ≢ v.fat_start + entry_sector v c) ⊎ (j < ent_offset v c) ⊎ (ent_offset v c + 4 ≤ j)
    → ((set_cluster v c value d).0 ≡ 0)
      × (next_cluster v c' (set_cluster v c value d).1
          ≡ (if c == c' then value % 2 ^ 28 else next_cluster v c' d))
      × (word_at
              ((set_cluster v c value d).1.sectors (v.fat_start + entry_sector v c))
              (ent_offset v c)
            / 2 ^ 28
          ≡ word_at (d.sectors (v.fat_start + entry_sector v c)) (ent_offset v c) / 2 ^ 28)
      × ((set_cluster v c value d).1.sectors x j ≡ d.sectors x j)
set_cluster_lem v extra c value c' x j d fat answers in_table in_table' before far =
    let s0 : ℕ = v.fat_start + entry_sector v c in
    let i : ℕ = ent_offset v c in
    let word : ℕ = word_at (d.sectors s0) i / 2 ^ 28 * 2 ^ 28 + value % 2 ^ 28 in
    let buf : Arr = with_entry i value (d.sectors s0) in
    let d' : Drive = (set_cluster v c value d).1 in
    let (_, at_x, _) = set_cluster-FirstTable v extra c value x d fat answers in_table before in
    let (_, at_s0, _) =
      set_cluster-FirstTable v extra c value s0 d fat answers in_table
        (omega (arith, in_table.1)) in
    let (done, reads) =
      next_cluster-set_cluster v extra c value c' d fat answers in_table in_table' in
    let small : word < 2 ^ 32 = omega (
      arith,
      answers.bytes s0 i,
      answers.bytes s0 (i + 1),
      answers.bytes s0 (i + 2),
      answers.bytes s0 (i + 3),
    ) in
    let entry : word_at (d'.sectors s0) i ≡ word =
      ap (λ (b : Arr). word_at b i) (at_s0 ∙ upd_self d.sectors s0 buf)
      ∙ word_at-put_word i word (d.sectors s0) small in
    let same : upd d.sectors s0 buf x j ≡ d.sectors x j = elim (Bool-cases (x == s0)) [
      | inl e ↦
          let at : x ≡ s0 = ground (arith, e) in
          let outside : (j < i) ⊎ (i + 4 ≤ j) = ground (arith, far, at) in
          ap (λ (y : ℕ). upd d.sectors s0 buf y j) at
          ∙ ap (λ (b : Arr). b j) (upd_self d.sectors s0 buf)
          ∙ put_word-out i word j (d.sectors s0) outside
          ∙ ap (λ (y : ℕ). d.sectors y j) (sym at)
      | inr e ↦
          let apart : s0 ≢ x = λ eq. absurd (ground (arith, e, eq)) in
          ap (λ (b : Arr). b j) (upd_ne d.sectors s0 x buf apart)
    ] in
    (done, reads, ap (λ (w : ℕ). w / 2 ^ 28) entry ∙ omega arith, ap (λ (b : Arr). b j) at_x ∙ same)
