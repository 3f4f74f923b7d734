-- ===== src/Vfs/Calls.antt =====
-- fs/vfs.c: the calls on paths and on open files. Whether `kmalloc` has room for a `file_t` is an argument.
use epona_os.Base.{
  ℕ, zero, suc, ◌+◌, ◌-◌, ◌%◌, ◌^◌, Bool, ◌&&◌, ◌||◌, not, Option, none, some, List, [], ◌∷◌, upd,
  length, ltb, ◌==◌, if◌then◌else◌,
}
use epona_os.Ring.{take, drop}
use epona_os.Vfs.{
  Nodes, FileSystem, Mounts, vfs_file, vfs_dir, minus_one, is_negative, same_text, split_path,
  is_dir, is_file, load_children, resolve,
}

-- `path[i]`, 0 at the end of string.
abbrev pub char_at : List ℕ → ℕ → ℕ
char_at [] i = 0
char_at (c ∷ cs) zero = c
char_at (c ∷ cs) (suc i) = char_at cs i

-- The loop of `vfs_split_parent`, from `slash` down.
unfoldable pub last_slash : (path : List ℕ) (slash : ℕ) → ℕ
last_slash path zero = 0
last_slash path (suc i) =
    let before = last_slash path i in if char_at path i == b'/' then suc i else before

-- `vfs_split_parent`: the path of the directory and the name in it.
unfoldable pub split_parent : List ℕ → Option (List ℕ × List ℕ)
split_parent path =
    let slash = last_slash path (length path) in
    if length path == 0
    then none
    else if slash == length path
    then none
    else some (if slash == 0 then [] else take 255 (take (slash - 1) path), drop slash path)

-- `file_t`; `node` is an address.
pub record File : Type 0 where
  pub node : ℕ
  pub offset : ℕ

abbrev opened : (room : Bool) (node : ℕ) → Nodes → Option File × Nodes
opened room node nodes = (if room then some (record { node = node; offset = 0 }) else none, nodes)

-- `vfs_open`
pub open_file : (fuel : ℕ) (room : Bool) → Mounts → List ℕ → Nodes → Option File × Nodes
open_file fuel room mounts path nodes = elim (split_path mounts path) [
  | none ↦ (none, nodes)
  | some (fs, rest) ↦
      let (node, nodes') = resolve fuel fs rest nodes in
      if node == 0 || not (is_file (nodes' node)) then (none, nodes') else opened room node nodes'
]

-- The directory of a new or an old entry, with its children read, and the entry's name.
abbrev pub in_parent : (fuel : ℕ) → FileSystem → List ℕ → Nodes → Option (ℕ × List ℕ) × Nodes
in_parent fuel fs rest nodes = elim (split_parent rest) [
  | none ↦ (none, nodes)
  | some (parent_path, name) ↦
      let (parent, nodes') = resolve fuel fs parent_path nodes in
      if parent == 0 || not (is_dir (nodes' parent))
      then (none, nodes')
      else (some (parent, name), load_children fs parent nodes')
]

-- What `vfs_create` and `vfs_mkdir` do once they know that the entry is new: the node, or NULL.
abbrev pub create_node :
    (fuel flags : ℕ)
    → FileSystem
    → ((parent : ℕ) → (name : List ℕ) → (flags : ℕ) → Nodes → ℕ × Nodes)
    → List ℕ
    → Nodes
    → ℕ × Nodes
create_node fuel flags fs create rest nodes =
    let (place, nodes') = in_parent fuel fs rest nodes in
    elim place [ none ↦ (0, nodes') | some (parent, name) ↦ create parent name flags nodes' ]

abbrev truncate : ℕ → Nodes → Nodes
truncate node nodes = upd nodes node (record (nodes node) { size = 0 })

abbrev pub create_in : (fuel : ℕ) (room : Bool) → FileSystem → List ℕ → Nodes → Option File × Nodes
create_in fuel room fs rest nodes = elim fs.create [
  | none ↦ (none, nodes)
  | some create ↦
      let (existing, nodes1) = resolve fuel fs rest nodes in
      let (node, nodes2) = create_node fuel vfs_file fs create rest nodes1 in
      if not (existing == 0) && is_file (nodes1 existing)
      then opened room existing (truncate existing nodes1)
      else if node == 0
      then (none, nodes2)
      else opened room node nodes2
]

-- `vfs_create`
pub create_file : (fuel : ℕ) (room : Bool) → Mounts → List ℕ → Nodes → Option File × Nodes
create_file fuel room mounts path nodes = elim (split_path mounts path) [
  | none ↦ (none, nodes)
  | some (fs, rest) ↦ create_in fuel room fs rest nodes
]

abbrev pub mkdir_in : (fuel : ℕ) → FileSystem → List ℕ → Nodes → ℕ × Nodes
mkdir_in fuel fs rest nodes = elim fs.create [
  | none ↦ (minus_one, nodes)
  | some create ↦
      let (existing, nodes1) = resolve fuel fs rest nodes in
      let (node, nodes2) = create_node fuel vfs_dir fs create rest nodes1 in
      if not (existing == 0)
      then (minus_one, nodes1)
      else (if node == 0 then minus_one else 0, nodes2)
]

-- `vfs_mkdir`
pub mkdir : (fuel : ℕ) → Mounts → List ℕ → Nodes → ℕ × Nodes
mkdir fuel mounts path nodes = elim (split_path mounts path) [
  | none ↦ (minus_one, nodes)
  | some (fs, rest) ↦ mkdir_in fuel fs rest nodes
]

-- `vfs_stat`: size and flags, or -1.
pub stat : (fuel : ℕ) → Mounts → List ℕ → Nodes → Option (ℕ × ℕ) × Nodes
stat fuel mounts path nodes = elim (split_path mounts path) [
  | none ↦ (none, nodes)
  | some (fs, rest) ↦
      let (node, nodes') = resolve fuel fs rest nodes in
      (if node == 0 then none else some ((nodes' node).size, (nodes' node).flags), nodes')
]

-- `vfs_read` behind its check that the operation is there: `got` is what it returns for an offset and a
-- size, a 32-bit pattern. The result is the pattern and the file.
unfoldable pub read_file : (got : ℕ → ℕ → ℕ) (size : ℕ) → Nodes → File → ℕ × File
read_file got size nodes f =
    let remain = ((nodes f.node).size + 2 ^ 64 - f.offset) % 2 ^ 64 in
    let wanted = if ltb remain size then remain else size in
    let ret = got f.offset wanted in
    let kept = if ltb wanted ret then wanted else ret in
    if ret == 0 || is_negative ret
    then (ret, f)
    else (kept, record f { offset = (f.offset + kept) % 2 ^ 64 })

-- `vfs_write` behind its check; the operation also changes the node.
pub write_file : (put : ℕ → ℕ → Nodes → ℕ × Nodes) (size : ℕ) → Nodes → File → ℕ × File × Nodes
write_file put size nodes f =
    let (ret, nodes') = put f.offset size nodes in
    if ret == 0 || is_negative ret
    then (ret, f, nodes')
    else (ret, record f { offset = (f.offset + ret) % 2 ^ 64 }, nodes')

-- The loop of `vfs_unlink`: the entry of that name, with the one before it, 0 at first.
pub find_with_prev : (fuel prev child : ℕ) → List ℕ → Nodes → Option (ℕ × ℕ)
find_with_prev zero prev child name nodes = none
find_with_prev (suc fuel) prev child name nodes =
    let rest = find_with_prev fuel child (nodes child).next name nodes in
    if child == 0
    then none
    else if same_text (nodes child).name name
    then some (prev, child)
    else rest

-- The entry leaves the list of its directory.
pub unlink_node : (parent prev child : ℕ) → Nodes → Nodes
unlink_node parent prev child nodes =
    if prev == 0
    then upd nodes parent (record (nodes parent) { children = (nodes child).next })
    else upd nodes prev (record (nodes prev) { next = (nodes child).next })

abbrev pub unlink_in : (fuel : ℕ) → FileSystem → List ℕ → Nodes → ℕ × Nodes
unlink_in fuel fs rest nodes = elim fs.unlink [
  | none ↦ (minus_one, nodes)
  | some unlink ↦
      let (place, nodes') = in_parent fuel fs rest nodes in
      elim place [
        | none ↦ (minus_one, nodes')
        | some (parent, name) ↦
            let (ret, after) = unlink parent name nodes' in
            elim (find_with_prev fuel 0 (nodes' parent).children name nodes') [
              | none ↦ (ret, after)
              | some (prev, child) ↦
                  if is_negative ret then (ret, after) else (0, unlink_node parent prev child after)
            ]
      ]
]

-- `vfs_unlink`
pub unlink_file : (fuel : ℕ) → Mounts → List ℕ → Nodes → ℕ × Nodes
unlink_file fuel mounts path nodes = elim (split_path mounts path) [
  | none ↦ (minus_one, nodes)
  | some (fs, rest) ↦ unlink_in fuel fs rest nodes
]

-- The loop of `vfs_readdir`: what the callback is called with.
pub list_children : (fuel child : ℕ) → Nodes → List (List ℕ × ℕ × ℕ)
list_children zero child nodes = []
list_children (suc fuel) child nodes =
    let rest = list_children fuel (nodes child).next nodes in
    if child == 0 then [] else ((nodes child).name, (nodes child).size, (nodes child).flags) ∷ rest

-- `vfs_readdir`: the calls of the callback, or -1.
pub readdir : (fuel : ℕ) → Mounts → List ℕ → Nodes → Option (List (List ℕ × ℕ × ℕ)) × Nodes
readdir fuel mounts path nodes = elim (split_path mounts path) [
  | none ↦ (none, nodes)
  | some (fs, rest) ↦
      let (node, nodes') = resolve fuel fs rest nodes in
      let loaded = load_children fs node nodes' in
      if node == 0 || not (is_dir (nodes' node))
      then (none, nodes')
      else (some (list_children fuel (loaded node).children loaded), loaded)
]
