-- ===== src/Fat/Examples.antt =====
-- fs/fat.c: runs on a small volume, and the theorems at it.
use epona_os.Base.{
  ℕ, ◌+◌, ◌/◌, ◌^◌, ◌≡◌, refl, inr, true, ◌&&◌, none, some, List, [], ◌∷◌, arith, ltb, leb, ◌==◌,
  if◌then◌else◌, codes,
}
use epona_os.Fat.Free.{first_free, alloc_cluster_lem}
use epona_os.Fat.{
  word_at, entry_sector, ent_offset, Volume, Drive, total_clusters, next_cluster, set_cluster,
  write_copies, alloc_cluster, alloc_cluster_loop, free_cluster_chain,
}
use epona_os.Fat.Names.{to_83_loop, name_to_83, trim_name, trim_name-name_to_83}
use epona_os.Fat.Chain.{Chain, free_cluster_chain_lem}
use epona_os.Fat.Table.{IsFat, Answers}
use epona_os.Fat.Entry.{set_cluster_lem}

abbrev volume : Volume
volume = record {
  bytes_per_sector = 512;
  sectors_per_cluster = 1;
  fat_count = 2;
  total_sectors_16 = 0;
  total_sectors_32 = 100;
  fat_start = 32;
  data_start = 36;
  sectors_per_fat = 2;
  root_cluster = 2;
  bytes_per_cluster = 512;
}

-- Cluster 2 is in use, and ends its chain.
abbrev drive : Drive
drive = record {
  sectors = λ x i. if x == 32 && leb 8 i && ltb i 12 then 255 else 0;
  readable = λ _. true;
  writable = λ _. true;
}

volume-IsFat : IsFat volume 1
volume-IsFat = record { sector_size = refl; copies = refl; fits = omega arith }

drive-Answers : Answers drive
drive-Answers = record { bytes = λ x i. ground arith; reads = λ x. refl; writes = λ x. refl }

takes_free : (alloc_cluster volume (λ _. 0) drive).0 ≡ 3
unfolding alloc_cluster alloc_cluster_loop set_cluster write_copies total_clusters
takes_free = refl

frees_chain :
    next_cluster volume 130 (
      free_cluster_chain volume 9 5
        (set_cluster volume 5 130 (set_cluster volume 130 0x0fffffff drive).1).1)
    ≡ 0
unfolding next_cluster free_cluster_chain set_cluster write_copies
frees_chain = refl

refuses_long : name_to_83 (codes "shell.html") ≡ none
unfolding name_to_83 to_83_loop
refuses_long = refl

set_cluster_lem_example :
    ((set_cluster volume 5 130 drive).0 ≡ 0)
    × (next_cluster volume 5 (set_cluster volume 5 130 drive).1 ≡ 130)
    × (word_at
            ((set_cluster volume 5 130 drive).1.sectors (volume.fat_start + entry_sector volume 5))
            (ent_offset volume 5)
          / 2 ^ 28
        ≡ word_at (drive.sectors (volume.fat_start + entry_sector volume 5)) (ent_offset volume 5)
          / 2 ^ 28)
    × ((set_cluster volume 5 130 drive).1.sectors volume.fat_start 24
        ≡ drive.sectors volume.fat_start 24)
set_cluster_lem_example =
    set_cluster_lem volume 1 5 130 5 volume.fat_start 24 drive volume-IsFat drive-Answers
      (omega arith, omega arith) (omega arith, omega arith) (omega arith) (inr (inr (omega arith)))

trim_name-name_to_83_example :
    (n : List ℕ) × (e : List ℕ) × (name_to_83 (codes "shell.elf") ≡ some (n, e))
    × (trim_name n e ≡ codes "shell.elf")
trim_name-name_to_83_example =
    trim_name-name_to_83 (codes "shell") (codes "elf") (refl, (refl, (refl, (refl, (refl, _)))))
      (refl, (refl, (refl, _))) (omega arith) (omega arith) (omega arith)

-- With cluster 5 before cluster 130, which ends the chain.
abbrev linked : Drive
linked = (set_cluster volume 5 130 (set_cluster volume 130 0x0fffffff drive).1).1

linked-Answers : Answers linked
unfolding set_cluster write_copies
linked-Answers = record { bytes = λ x i. ground arith; reads = λ x. refl; writes = λ x. refl }

linked-Chain : Chain volume 5 (5 ∷ 130 ∷ []) linked
unfolding next_cluster set_cluster write_copies
linked-Chain = (
  refl,
  refl,
  (omega arith, omega arith),
  refl,
  (refl, refl, (omega arith, omega arith), refl, refl),
)

free_cluster_chain_lem_example : next_cluster volume 130 (free_cluster_chain volume 3 5 linked) ≡ 0
free_cluster_chain_lem_example =
    free_cluster_chain_lem volume 1 3 5 (5 ∷ 130 ∷ []) linked 130 volume-IsFat linked-Answers
      linked-Chain (omega arith) (omega arith, omega arith)

clusters : total_clusters volume ≡ 64
unfolding total_clusters
clusters = refl

alloc_cluster_lem_example :
    alloc_cluster volume (λ _. 7) drive ≡ first_free volume (total_clusters volume) 2 drive
alloc_cluster_lem_example =
    alloc_cluster_lem volume 1 (λ _. 7) drive volume-IsFat drive-Answers (omega (arith, clusters))
      (omega (arith, clusters)) (omega arith)
