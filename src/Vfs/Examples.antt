-- ===== src/Vfs/Examples.antt =====
-- fs/vfs.c: a small tree, and the theorems at it.
use epona_os.Base.{
  ℕ, ◌≡◌, refl, ◌⊎◌, none, some, List, [], ◌∷◌, ◌++◌, arith, ◌==◌, if◌then◌else◌, codes,
}
use epona_os.Vfs.{
  same_text, best_mount, starts_with, Nodes, FileSystem, Mounts, vfs_dir, vfs_file, split_path,
  resolve,
}
use epona_os.Vfs.Paths.{AllAtMost, IsLongest, NoSlash, split_path_lem}
use epona_os.Vfs.Lookup.{joined, end_of, names, resolve_lem}
use epona_os.Vfs.Calls.{split_parent, last_slash}

-- Node 1 is the root with `a` and `bin`, and `bin` has `sh`.
abbrev tree : Nodes
tree i =
    if i == 1
    then record { name = []; size = 0; flags = vfs_dir; children = 2; next = 0 }
    else if i == 2
    then record { name = codes "a"; size = 5; flags = vfs_file; children = 0; next = 3 }
    else if i == 3
    then record { name = codes "bin"; size = 0; flags = vfs_dir; children = 4; next = 0 }
    else record { name = codes "sh"; size = 9; flags = vfs_file; children = 0; next = 0 }

abbrev fs : FileSystem
fs = record { root = 1; readdir = none; create = none; unlink = none }

abbrev mounts : Mounts
mounts = (codes "/", fs) ∷ (codes "/mnt", record fs { root = 3 }) ∷ []

-- The path of a mount is taken as a prefix of characters, not of names.
split_path_wrong_name :
    split_path mounts (codes "/mnt2/x") ≡ some (record fs { root = 3 }, codes "2/x")
unfolding split_path best_mount starts_with
split_path_wrong_name = refl

split_parent_runs : split_parent (codes "bin/sh") ≡ some (codes "bin", codes "sh")
unfolding split_parent last_slash
split_parent_runs = refl

split_path_lem_example :
    ((split_path mounts (b'/' ∷ codes "bin/sh") ≡ none)
      × AllAtMost (b'/' ∷ codes "bin/sh") 0 mounts)
    ⊎ ((p : List ℕ) × (fs : FileSystem) × (tail : List ℕ) × (rest : List ℕ) × IsLongest
          (b'/' ∷ codes "bin/sh")
          mounts
          p
          fs
        × (b'/' ∷ codes "bin/sh" ≡ p ++ tail)
        × NoSlash tail rest
        × (split_path mounts (b'/' ∷ codes "bin/sh") ≡ some (fs, rest)))
split_path_lem_example = split_path_lem (codes "bin/sh") mounts

abbrev way : List (List ℕ × ℕ)
way = (2 ∷ [], 3) ∷ ([], 4) ∷ []

resolve_lem_example : resolve 9 fs (joined (names tree way)) tree ≡ (end_of 1 way, tree)
unfolding same_text
resolve_lem_example =
    resolve_lem 9 fs way tree
      (
        record {
          here = omega arith;
          dir = refl;
          loaded = omega arith;
          linked = (refl, omega arith, (refl, omega arith, _));
          there = omega arith;
          unlike = (refl, _);
          few = omega arith;
        },
        (
          record {
            here = omega arith;
            dir = refl;
            loaded = omega arith;
            linked = (refl, omega arith, _);
            there = omega arith;
            unlike = _;
            few = omega arith;
          },
          _,
        ),
      )
      (
        (omega arith, (omega arith, (omega arith, (omega arith, _)))),
        ((omega arith, (omega arith, (omega arith, _))), _),
      )
