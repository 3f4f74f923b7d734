-- ===== src/Fat.antt =====
-- fs/fat.c: the table of clusters of a FAT32 volume. The drive is a function from the number of a sector to its bytes;
-- the two predicates say which sectors `ata_read_sectors` and `ata_write_sectors` reach.
use epona_os.Base.{
  ℕ, zero, suc, ◌+◌, ◌-◌, ◌*◌, ◌/◌, ◌%◌, ◌^◌, ◌≤◌, ◌<◌, bit_and, bit_or, bit_xor, ◌≡◌, refl, sym,
  ap, ◌∙◌, ◌≢◌, ◌↔◌, ◌⊎◌, inl, inr, Bool, true, false, ◌&&◌, ◌||◌, not, Option, none, some, List,
  [], ◌∷◌, ◌++◌, arith, Arr, upd, upd_self, upd_ne, subst, length, length-append, ltb, leb, ◌==◌,
  ==_iff, if◌then◌else◌, Bool-cases, if_elim, extend_down, Option-cases, ltb→lt, &&_split,
  all_below, all_below_sound, bytes_at, length-bytes_at, bytes_at_ext, bytes_at-add, codes,
  write_bytes, write_bytes-out, bytes_at-write_bytes, Spells, Spells-append, Spells-join,
  Spells-ext, Spells-write_bytes,
}
pub mod Names
pub mod Table
pub mod Entry
pub mod Chain
pub mod Free
mod Examples

abbrev pub fat_eoc : ℕ
fat_eoc = 0x0ffffff8

-- `fat_private_t` with the fields of `fat_bpb_t` that are used after the mount.
pub record Volume : Type 0 where
  pub bytes_per_sector : ℕ
  pub sectors_per_cluster : ℕ
  pub fat_count : ℕ
  pub total_sectors_16 : ℕ
  pub total_sectors_32 : ℕ
  pub fat_start : ℕ
  pub data_start : ℕ
  pub sectors_per_fat : ℕ
  pub root_cluster : ℕ
  pub bytes_per_cluster : ℕ

pub record Drive : Type 0 where
  pub sectors : ℕ → Arr
  pub readable : ℕ → Bool
  pub writable : ℕ → Bool

-- -1, as a 32-bit pattern.
abbrev pub minus_one : ℕ
minus_one = 2 ^ 32 - 1

-- `ata_write_sectors` of one sector.
abbrev pub write_sector : (lba : ℕ) (buf : Arr) → Drive → Drive
write_sector lba buf d = record d { sectors = upd d.sectors lba buf }

-- A 32-bit word in a buffer.
abbrev pub word_at : Arr → ℕ → ℕ
word_at buf i = buf i + 2 ^ 8 * buf (i + 1) + 2 ^ 16 * buf (i + 2) + 2 ^ 24 * buf (i + 3)

abbrev pub put_word : (i word : ℕ) → Arr → Arr
put_word i word buf =
    upd
      (upd (upd (upd buf i (word % 2 ^ 8)) (i + 1) (word / 2 ^ 8 % 2 ^ 8)) (i + 2)
        (word / 2 ^ 16 % 2 ^ 8))
      (i + 3) (word / 2 ^ 24 % 2 ^ 8)

-- `fat_cluster_to_lba`
pub cluster_to_lba : Volume → (cluster : ℕ) → ℕ
cluster_to_lba v cluster =
    (v.data_start + (cluster + 2 ^ 32 - 2) % 2 ^ 32 * v.sectors_per_cluster) % 2 ^ 32

-- The sector of the entry of a cluster behind the start of a table, and the place in it.
abbrev pub entry_sector : Volume → (cluster : ℕ) → ℕ
entry_sector v cluster = cluster * 4 % 2 ^ 32 / v.bytes_per_sector

abbrev pub ent_offset : Volume → (cluster : ℕ) → ℕ
ent_offset v cluster = cluster * 4 % 2 ^ 32 % v.bytes_per_sector

-- `fat_next_cluster`
unfoldable pub next_cluster : Volume → (cluster : ℕ) → Drive → ℕ
next_cluster v cluster d =
    let fat_sector = (v.fat_start + entry_sector v cluster) % 2 ^ 32 in
    if not (d.readable fat_sector)
    then fat_eoc
    else word_at (d.sectors fat_sector) (ent_offset v cluster) % 2 ^ 28

-- The loop of `fat_set_cluster` over the copies of the table, from copy `i` on.
unfoldable pub write_copies : Volume → (n i at : ℕ) (buf : Arr) → Drive → ℕ × Drive
write_copies v zero i at buf d = (0, d)
write_copies v (suc n) i at buf d =
    let sector = (v.fat_start + i * v.sectors_per_fat + at) % 2 ^ 32 in
    let rest = write_copies v n (i + 1) at buf (write_sector sector buf d) in
    if not (d.writable sector) then (minus_one, d) else rest

-- The buffer with the new entry: the highest four bits stay.
abbrev pub with_entry : (offset value : ℕ) → Arr → Arr
with_entry offset value buf =
    put_word offset (word_at buf offset / 2 ^ 28 * 2 ^ 28 + value % 2 ^ 28) buf

-- `fat_set_cluster`
unfoldable pub set_cluster : Volume → (cluster value : ℕ) → Drive → ℕ × Drive
set_cluster v cluster value d =
    let fat_sector = (v.fat_start + entry_sector v cluster) % 2 ^ 32 in
    let buf = with_entry (ent_offset v cluster) value (d.sectors fat_sector) in
    if not (d.readable fat_sector)
    then (minus_one, d)
    else write_copies v v.fat_count 0 (entry_sector v cluster) buf d

-- `fat_total_clusters`
pub total_clusters : Volume → ℕ
total_clusters v =
    let total =
      if v.total_sectors_32 == 0
      then (if v.total_sectors_16 == 0 then 8192 else v.total_sectors_16)
      else v.total_sectors_32 in
    (total + 2 ^ 32 - v.data_start) % 2 ^ 32 / v.sectors_per_cluster

-- The loop of `fat_alloc_cluster` from cluster `c` on, with the sector that is in the buffer; 0 when there is no free
-- cluster.
unfoldable pub alloc_cluster_loop : Volume → (n c loaded_sector : ℕ) (buf : Arr) → Drive → ℕ × Drive
alloc_cluster_loop v zero c loaded_sector buf d = (0, d)
alloc_cluster_loop v (suc n) c loaded_sector buf d =
    let fat_sector = (v.fat_start + c * 4 % 2 ^ 32 / 512) % 2 ^ 32 in
    let ent_off = c * 4 % 2 ^ 32 % 512 in
    let buf' = if fat_sector == loaded_sector then buf else d.sectors fat_sector in
    let rest = alloc_cluster_loop v n (c + 1) fat_sector buf' d in
    if not (fat_sector == loaded_sector) && not (d.readable fat_sector)
    then (0, d)
    else if word_at buf' ent_off % 2 ^ 28 == 0
    then (c, (set_cluster v c fat_eoc d).1)
    else rest

-- `fat_alloc_cluster`; `buf` is what happens to be in the buffer. There are fewer than 2^32 - 2 clusters.
unfoldable pub alloc_cluster : Volume → (buf : Arr) → Drive → ℕ × Drive
alloc_cluster v buf d = alloc_cluster_loop v (total_clusters v) 2 0xffffffff buf d

-- `fat_free_cluster_chain`, through at most `fuel` clusters.
unfoldable pub free_cluster_chain : Volume → (fuel cluster : ℕ) → Drive → Drive
free_cluster_chain v zero cluster d = d
free_cluster_chain v (suc fuel) cluster d =
    let rest = free_cluster_chain v fuel (next_cluster v cluster d) (set_cluster v cluster 0 d).1 in
    if leb 2 cluster && ltb cluster fat_eoc then rest else d

-- `fat_mount`: the sector of the boot record, or none where the mount fails. `kmalloc` does not fail.
pub mount_volume : Drive → Option Volume
mount_volume d =
    let b = d.sectors 0 in
    let bytes_per_sector = b 11 + 2 ^ 8 * b 12 in
    let fat_size_32 = word_at b 36 in
    let reserved_sectors = b 14 + 2 ^ 8 * b 15 in
    let root_max_entries = b 17 + 2 ^ 8 * b 18 in
    let root_sectors = (root_max_entries * 32 + bytes_per_sector - 1) % 2 ^ 32 / bytes_per_sector in
    if not (d.readable 0)
    then none
    else if not (bytes_per_sector == 512)
    then none
    else if not (b 66 == 0x29) && not (b 66 == 0x28)
    then none
    else if fat_size_32 == 0
    then none
    else some (record {
      bytes_per_sector = bytes_per_sector;
      sectors_per_cluster = b 13;
      fat_count = b 16;
      total_sectors_16 = b 19 + 2 ^ 8 * b 20;
      total_sectors_32 = word_at b 32;
      fat_start = reserved_sectors;
      data_start = (reserved_sectors + b 16 * fat_size_32 + root_sectors) % 2 ^ 32;
      sectors_per_fat = fat_size_32;
      root_cluster = word_at b 44;
      bytes_per_cluster = bytes_per_sector * b 13;
    })
