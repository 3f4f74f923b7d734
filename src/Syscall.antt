-- ===== src/Syscall.antt =====
-- kernel/syscall.c: the state that the system calls work on, and what they do with addresses from user mode.
use epona_os.Base.{
  ℕ, zero, suc, ◌+◌, ◌-◌, ◌*◌, ◌/◌, ◌%◌, ◌^◌, ◌≤◌, ◌<◌, bit_and, bit_or, bit_xor, ◌≡◌, refl, sym,
  ap, ◌∙◌, ◌≢◌, ◌↔◌, ◌⊎◌, inl, inr, Bool, true, false, ◌&&◌, ◌||◌, not, Option, none, some, List,
  [], ◌∷◌, ◌++◌, arith, Arr, upd, upd_self, upd_ne, subst, length, length-append, ltb, leb, ◌==◌,
  ==_iff, if◌then◌else◌, Bool-cases, if_elim, extend_down, Option-cases, ltb→lt, &&_split,
  all_below, all_below_sound, bytes_at, length-bytes_at, bytes_at_ext, bytes_at-add, codes,
  write_bytes, write_bytes-out, bytes_at-write_bytes, Spells, Spells-append, Spells-join,
  Spells-ext, Spells-write_bytes,
}
use epona_os.Ring.{take}
use epona_os.Pipe.{Pipe}
use epona_os.Task.{Task}
use epona_os.Sched.{Sched}
use epona_os.Term.{Default}
use epona_os.Vfs.{Node, Nodes, Mounts}
use epona_os.Vfs.Calls.{File}
pub mod Pointers
pub mod Listing
pub mod Files
pub mod Tasks
pub mod Dispatch
pub mod Descriptors
pub mod Confined
mod Examples

-- What `read` and `write` of the file systems do: the 32-bit pattern that they return for a node, an offset and
-- a size, and the bytes that have been read.
pub record Disk : Type 0 where
  pub got : ℕ → ℕ → ℕ → ℕ
  pub bytes : ℕ → ℕ → ℕ → List ℕ
  pub put : ℕ → ℕ → List ℕ → Nodes → ℕ × Nodes

-- `mem` is the memory as the current task sees it, and `mapped` says whether `paging_get_phys` finds the page.
-- `files` has the open files at their addresses; `typed` is what `keyboard_getc` will answer, one after the other;
-- `elf_ret_rip` is 0 or not.
pub record Kernel : Type 0 where
  pub mem : Arr
  pub mapped : ℕ → Bool
  pub sched : Sched
  pub pipes : ℕ → Pipe
  pub console : Default
  pub typed : List ℕ
  pub mounts : Mounts
  pub nodes : Nodes
  pub files : ℕ → File
  pub disk : Disk
  pub elf_ret_rip : ℕ

-- How a call ends: with a value in RAX; not yet, when it lets other tasks run and will be tried again; or not at
-- all, when the task ends or the machine stops; or with 0, in another program and another address space.
pub data Outcome : Type 0 where
  returns : ℕ → Kernel → Outcome
  yields : Kernel → Outcome
  leaves : Kernel → Outcome
  jumps : (entry stack_top pml4 : ℕ) → Kernel → Outcome

-- -1 in a register.
abbrev pub minus_one : ℕ
minus_one = 2 ^ 64 - 1

abbrev pub fails : Kernel → Outcome
fails k = returns minus_one k

-- `(uint64_t)` of an int, from its 32-bit pattern.
abbrev pub extend : ℕ → ℕ
extend r = if leb (2 ^ 31) r then 2 ^ 64 - 2 ^ 32 + r else r

-- The loop over the pages.
unfoldable pub all_mapped : (pages page : ℕ) → (ℕ → Bool) → Bool
all_mapped zero page mapped = true
all_mapped (suc pages) page mapped =
    let rest = all_mapped pages (page + 0x1000) mapped in if not (mapped page) then false else rest

unfoldable pub validate_user_ptr : (addr size : ℕ) → (ℕ → Bool) → Bool
validate_user_ptr addr size mapped =
    let end = (addr + size) % 2 ^ 64 in
    let start_page = addr / 0x1000 * 0x1000 in
    let end_page = (end + 0xfff) % 2 ^ 64 / 0x1000 * 0x1000 in
    if ltb addr 0x1000
    then false
    else if ltb end addr
    then false
    else if ltb 0x7fffffffff end
    then false
    else all_mapped ((end_page - start_page) / 0x1000) start_page mapped

-- The loop of `copy_from_user`, for `room` more characters; the last place is for the end of string.
unfoldable pub copy_chars : (room addr : ℕ) → Arr → List ℕ
copy_chars zero addr mem = []
copy_chars (suc room) addr mem =
    let rest = copy_chars room (addr + 1) mem in if mem addr == 0 then [] else mem addr ∷ rest

-- `copy_from_user`: the text, or -1. Only the first address is checked.
unfoldable pub copy_from_user : (addr max : ℕ) → Kernel → Option (List ℕ)
copy_from_user addr max k =
    if addr == 0 || max == 0
    then none
    else if not (validate_user_ptr addr 1 k.mapped)
    then none
    else some (copy_chars (max - 1) addr k.mem)

abbrev pub absolute : (max : ℕ) → List ℕ → List ℕ
absolute max [] = b'/' ∷ []
absolute max (c ∷ path) =
    if c == b'/' then take (max - 1) (c ∷ path) else b'/' ∷ take (max - 2) (c ∷ path)

-- `resolve_user_path`
unfoldable pub resolve_user_path : (addr max : ℕ) → Kernel → Option (List ℕ)
resolve_user_path addr max k =
    if addr == 0 || not (validate_user_ptr addr 1 k.mapped)
    then none
    else elim (copy_from_user addr 256 k) [ none ↦ none | some path ↦ some (absolute max path) ]

-- The bytes of a word as it stands in memory.
abbrev pub store_word : (addr word : ℕ) → Arr → Arr
store_word addr word mem =
    write_bytes
      (word % 2 ^ 8 ∷ word / 2 ^ 8 % 2 ^ 8 ∷ word / 2 ^ 16 % 2 ^ 8 ∷ word / 2 ^ 24 % 2 ^ 8 ∷ [])
      addr mem

-- `copy_data_from_user` and `copy_data_to_user`, which nothing calls.
pub copy_data_from_user : (usrc size : ℕ) → Kernel → Option (List ℕ)
copy_data_from_user usrc size k =
    if not (validate_user_ptr usrc size k.mapped) then none else some (bytes_at k.mem usrc size)

pub copy_data_to_user : (udst : ℕ) → List ℕ → Kernel → Option Kernel
copy_data_to_user udst bytes k =
    if not (validate_user_ptr udst (length bytes) k.mapped)
    then none
    else some (record k { mem = write_bytes bytes udst k.mem })
