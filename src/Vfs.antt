-- ===== src/Vfs.antt =====
-- fs/vfs.c: mounts, paths and the tree of nodes. A path is its characters before the end of string; it is
-- taken to fit into the buffers of 256 characters, which the code does not check.
use epona_os.Base.{
  ℕ, zero, suc, ◌+◌, ◌-◌, ◌*◌, ◌/◌, ◌%◌, ◌^◌, ◌≤◌, ◌<◌, bit_and, bit_or, bit_xor, ◌≡◌, refl, sym,
  ap, ◌∙◌, ◌≢◌, ◌↔◌, ◌⊎◌, inl, inr, Bool, true, false, ◌&&◌, ◌||◌, not, Option, none, some, List,
  [], ◌∷◌, ◌++◌, arith, Arr, upd, upd_self, upd_ne, subst, length, length-append, ltb, leb, ◌==◌,
  ==_iff, if◌then◌else◌, Bool-cases, if_elim, extend_down, Option-cases, ltb→lt, &&_split,
  all_below, all_below_sound, bytes_at, length-bytes_at, bytes_at_ext, bytes_at-add, codes,
  write_bytes, write_bytes-out, bytes_at-write_bytes, Spells, Spells-append, Spells-join,
  Spells-ext, Spells-write_bytes,
}
use epona_os.Ring.{drop}
pub mod Paths
pub mod Lookup
pub mod Offsets
pub mod Calls
mod Examples

abbrev pub vfs_max_mounts : ℕ
vfs_max_mounts = 16

abbrev pub vfs_file : ℕ
vfs_file = 1

abbrev pub vfs_dir : ℕ
vfs_dir = 2

-- `vfs_node_t`, without the pointers to the file system, its data and the parent. `children` and `next` are
-- addresses of nodes, 0 for NULL.
pub record Node : Type 0 where
  pub name : List ℕ
  pub size : ℕ
  pub flags : ℕ
  pub children : ℕ
  pub next : ℕ

-- The nodes at their addresses.
abbrev pub Nodes : Type 0
Nodes = ℕ → Node

-- `vfs_filesystem_t`: the root and the operations, of which each can be missing. `readdir` is the call
-- without a callback, which loads the children of a node; `create` returns a node or NULL, `unlink` a 32-bit
-- pattern.
pub record FileSystem : Type 0 where
  pub root : ℕ
  pub readdir : Option (ℕ → Nodes → Nodes)
  pub create : Option ((parent : ℕ) → (name : List ℕ) → (flags : ℕ) → Nodes → ℕ × Nodes)
  pub unlink : Option ((parent : ℕ) → (name : List ℕ) → Nodes → ℕ × Nodes)

-- The mounts, in the order of the two arrays.
abbrev pub Mounts : Type 0
Mounts = List (List ℕ × FileSystem)

abbrev pub minus_one : ℕ
minus_one = 2 ^ 32 - 1

-- A 32-bit pattern that means a negative number.
abbrev pub is_negative : ℕ → Bool
is_negative r = leb (2 ^ 31) r

-- `strcmp(a, b) == 0`
unfoldable pub same_text : (a b : List ℕ) → Bool
same_text [] [] = true
same_text [] (_ ∷ _) = false
same_text (_ ∷ _) [] = false
same_text (x ∷ a) (y ∷ b) = x == y && same_text a b

-- `strncmp(a, b, strlen(a)) == 0`
unfoldable pub starts_with : (a b : List ℕ) → Bool
starts_with [] b = true
starts_with (x ∷ a) [] = false
starts_with (x ∷ a) (y ∷ b) = x == y && starts_with a b

-- The first loop of `vfs_mount`.
pub is_mounted : List ℕ → Mounts → Bool
is_mounted path [] = false
is_mounted path ((p, fs) ∷ mounts) = same_text p path || is_mounted path mounts

-- `vfs_mount`
pub mount : List ℕ → FileSystem → Mounts → ℕ × Mounts
mount path fs mounts =
    if is_mounted path mounts
    then (minus_one, mounts)
    else if leb vfs_max_mounts (length mounts)
    then (minus_one, mounts)
    else (0, mounts ++ ((path, fs) ∷ []))

-- The loop of `vfs_split_path`: the best mount so far and the length of its path.
pub best_mount : List ℕ → Mounts → (best : Option FileSystem) (best_len : ℕ) → Option FileSystem × ℕ
best_mount full [] best best_len = (best, best_len)
best_mount full ((p, fs) ∷ mounts) best best_len =
    let better = best_mount full mounts (some fs) (length p) in
    let same = best_mount full mounts best best_len in
    if starts_with p full && ltb best_len (length p) then better else same

-- What follows the path of the mount.
abbrev pub rest_of : List ℕ → List ℕ
rest_of [] = []
rest_of (c ∷ cs) = if c == b'/' then cs else c ∷ cs

abbrev pub with_rest : (full : List ℕ) → Option FileSystem × ℕ → Option (FileSystem × List ℕ)
with_rest full (none, len) = none
with_rest full (some fs, len) = some (fs, rest_of (drop len full))

-- `vfs_split_path`: the file system and the rest of the path.
pub split_path : Mounts → List ℕ → Option (FileSystem × List ℕ)
split_path mounts [] = none
split_path mounts (c ∷ full) =
    if c == b'/' then with_rest (c ∷ full) (best_mount (c ∷ full) mounts none 0) else none

-- `strtok` with the separator "/", from the start of a path; `part` is the token that has begun.
unfoldable pub tokens : (part path : List ℕ) → List (List ℕ)
tokens [] [] = []
tokens (p ∷ part) [] = (p ∷ part) ∷ []
tokens [] (c ∷ path) = if c == b'/' then tokens [] path else tokens (c ∷ []) path
tokens (p ∷ part) (c ∷ path) =
    let next = tokens [] path in
    let longer = tokens (p ∷ (part ++ (c ∷ []))) path in
    if c == b'/' then (p ∷ part) ∷ next else longer

-- `node->flags & VFS_DIR` and `& VFS_FILE`
abbrev pub is_dir : Node → Bool
is_dir n = n.flags / 2 % 2 == 1

abbrev pub is_file : Node → Bool
is_file n = n.flags % 2 == 1

-- The children are read when there are none.
unfoldable pub load_children : FileSystem → (node : ℕ) → Nodes → Nodes
load_children fs node nodes = elim fs.readdir [
  | none ↦ nodes
  | some readdir ↦ if (nodes node).children == 0 then readdir node nodes else nodes
]

-- The loop over the children, for at most `fuel` of them: the first of that name, or NULL.
unfoldable pub find_child : (fuel child : ℕ) → List ℕ → Nodes → ℕ
find_child zero child name nodes = 0
find_child (suc fuel) child name nodes =
    let rest = find_child fuel (nodes child).next name nodes in
    if child == 0 then 0 else if same_text (nodes child).name name then child else rest

-- The loop over the tokens of `vfs_resolve`.
unfoldable pub walk : (fuel : ℕ) → FileSystem → List (List ℕ) → (curr : ℕ) → Nodes → ℕ × Nodes
walk fuel fs [] curr nodes = (curr, nodes)
walk fuel fs (part ∷ parts) curr nodes =
    let loaded = load_children fs curr nodes in
    let child = find_child fuel (loaded curr).children part loaded in
    let deeper = walk fuel fs parts child loaded in
    if curr == 0 || not (is_dir (nodes curr))
    then (0, nodes)
    else if child == 0
    then (0, loaded)
    else deeper

-- `vfs_resolve`, for directories of at most `fuel` nodes.
unfoldable pub resolve : (fuel : ℕ) → FileSystem → List ℕ → Nodes → ℕ × Nodes
resolve fuel fs path nodes = walk fuel fs (tokens [] path) fs.root nodes
