-- ===== src/Syscall/Files.antt =====
-- kernel/syscall.c: the calls on files, on the terminal and on the ends of pipes.
use epona_os.Base.{
  ℕ, zero, suc, ◌+◌, ◌-◌, ◌%◌, ◌^◌, Bool, false, ◌&&◌, ◌||◌, not, Option, none, some, List, [], ◌∷◌,
  upd, length, ltb, leb, ◌==◌, if◌then◌else◌, bytes_at, write_bytes,
}
use epona_os.Pipe
use epona_os.Pipe.{Pipe, pipe_buf_size}
use epona_os.Task.{Task, task_max_fd, fd_type_file, fd_alloc, fd_free, fd_get}
use epona_os.Sched.{schedule, map_current}
use epona_os.Term.{Default, term_putc}
use epona_os.Vfs.Calls
use epona_os.Vfs.Calls.{File, open_file, create_file, read_file, write_file, unlink_file, stat}
use epona_os.Syscall.{
  Kernel, Outcome, returns, yields, fails, minus_one, validate_user_ptr, resolve_user_path,
  store_word,
}
use epona_os.Syscall.Listing.{write_listing}

abbrev pub fd_stdin : ℕ
fd_stdin = 0

abbrev pub fd_stdout : ℕ
fd_stdout = 1

abbrev pub fd_stderr : ℕ
fd_stderr = 2

abbrev pub fd_type_pipe_r : ℕ
fd_type_pipe_r = 2

abbrev pub fd_type_pipe_w : ℕ
fd_type_pipe_w = 3

-- The address of a slot of `g_pipes`, which is not NULL, and the slot of an address.
abbrev pub pipe_ptr : ℕ → ℕ
pipe_ptr slot = slot + 1

abbrev pub pipe_slot : ℕ → ℕ
pipe_slot ptr = ptr - 1

-- `task_current`
abbrev pub current : Kernel → Option Task
current k = elim k.sched.ring [ [] ↦ none | ◌∷◌ t _ ↦ some t ]

abbrev pub with_current : (Task → Task) → Kernel → Kernel
with_current f k = record k { sched = record k.sched { ring = map_current f k.sched.ring } }

-- `task_yield`
abbrev pub yield : Kernel → Outcome
yield k = yields (record k { sched = schedule k.sched })

-- `> 0` of an int, from its 32-bit pattern.
abbrev pub positive : ℕ → Bool
positive r = ltb 0 r && ltb r (2 ^ 31)

-- The loop of SYS_WRITE over the characters.
pub put_chars : List ℕ → Default → Default
put_chars [] console = console
put_chars (c ∷ cs) console = put_chars cs (term_putc c console)

unfoldable pub write_pipe : (p addr count : ℕ) → Kernel → Outcome
write_pipe p addr count k =
    let pipe = k.pipes p in
    let (n, pipe') = Pipe.write (bytes_at k.mem addr count) pipe in
    if not (validate_user_ptr addr count k.mapped)
    then fails k
    else if pipe.count == pipe_buf_size && positive pipe.readers
    then yield k
    else if pipe.readers == 0
    then fails k
    else returns n (record k { pipes = upd k.pipes p pipe' })

pub write_to_file : (f addr count : ℕ) → Kernel → Outcome
write_to_file f addr count k =
    let file = k.files f in
    let bytes = bytes_at k.mem addr count in
    let (n, file', nodes') =
      write_file (λ off size nodes. k.disk.put file.node off bytes nodes) count k.nodes file in
    if not (validate_user_ptr addr count k.mapped)
    then fails k
    else returns (if leb (2 ^ 31) n then minus_one else n)
        (record k { files = upd k.files f file'; nodes = nodes' })

-- SYS_WRITE of the task `cur`, to a descriptor that is not the terminal.
unfoldable pub write_fd : (cur : Task) (fd addr count : ℕ) → Kernel → Outcome
write_fd cur fd addr count k =
    let obj = fd_get fd cur in
    let kind = (cur.fd fd).kind in
    if obj == 0
    then fails k
    else if kind == fd_type_pipe_w
    then write_pipe (pipe_slot obj) addr count k
    else if kind == fd_type_file
    then write_to_file obj addr count k
    else fails k

-- SYS_WRITE
unfoldable pub sys_write : (fd addr count : ℕ) → Kernel → Outcome
sys_write fd addr count k =
    if fd == fd_stdout || fd == fd_stderr
    then (if not (validate_user_ptr addr count k.mapped)
        then fails k
        else returns count (record k { console = put_chars (bytes_at k.mem addr count) k.console }))
    else elim (current k) [ none ↦ fails k | some cur ↦ write_fd cur fd addr count k ]

-- The loop of SYS_READ on the keyboard, for `room` more characters: the characters, and the keys that are left.
-- `none` while it waits for more keys.
unfoldable pub read_keys : (room : ℕ) (typed : List ℕ) → Option (List ℕ × List ℕ)
read_keys zero typed = some ([], typed)
read_keys (suc room) [] = none
read_keys (suc room) (c ∷ typed) =
    let skipped = read_keys (suc room) typed in
    let more : Option (List ℕ × List ℕ) = elim (read_keys room typed) [
      | none ↦ none
      | some (cs, left) ↦ some (c ∷ cs, left)
    ] in
    if c == 0 || ltb 255 c then skipped else if c == b'\n' then some (c ∷ [], typed) else more

unfoldable pub read_pipe : (p addr count : ℕ) → Kernel → Outcome
read_pipe p addr count k =
    let pipe = k.pipes p in
    let (bytes, pipe') = Pipe.read count pipe in
    if not (validate_user_ptr addr count k.mapped)
    then fails k
    else if pipe.count == 0 && positive pipe.writers
    then yield k
    else if pipe.count == 0
    then returns 0 k
    else returns (length bytes)
        (record k { pipes = upd k.pipes p pipe'; mem = write_bytes bytes addr k.mem })

unfoldable pub read_from_file : (f addr count : ℕ) → Kernel → Outcome
read_from_file f addr count k =
    let file = k.files f in
    let remain = ((k.nodes file.node).size + 2 ^ 64 - file.offset) % 2 ^ 64 in
    let wanted = if ltb remain count then remain else count in
    let (n, file') = read_file (k.disk.got file.node) count k.nodes file in
    if not (validate_user_ptr addr count k.mapped)
    then fails k
    else returns (if leb (2 ^ 31) n then minus_one else n) (record k {
      files = upd k.files f file';
      mem = write_bytes (k.disk.bytes file.node file.offset wanted) addr k.mem;
    })

unfoldable pub read_fd : (cur : Task) (fd addr count : ℕ) → Kernel → Outcome
read_fd cur fd addr count k =
    let obj = fd_get fd cur in
    let kind = (cur.fd fd).kind in
    if obj == 0
    then fails k
    else if kind == fd_type_pipe_r
    then read_pipe (pipe_slot obj) addr count k
    else if kind == fd_type_file
    then read_from_file obj addr count k
    else fails k

-- SYS_READ
unfoldable pub sys_read : (fd addr count : ℕ) → Kernel → Outcome
sys_read fd addr count k =
    if fd == fd_stdin
    then (if not (validate_user_ptr addr count k.mapped)
        then fails k
        else elim (read_keys count k.typed) [
          | none ↦ yields k
          | some (cs, left) ↦
              returns (length cs) (record k { mem = write_bytes cs addr k.mem; typed = left })
        ])
    else elim (current k) [ none ↦ fails k | some cur ↦ read_fd cur fd addr count k ]

-- The file has been opened at the address `at`, and gets a descriptor; without one it is closed again.
abbrev pub give_fd : (at : ℕ) → File → Kernel → Outcome
give_fd at file k = elim (current k) [
  | none ↦ fails k
  | some cur ↦
      let (fd, cur') = fd_alloc at fd_type_file cur in
      elim fd [
        | none ↦ fails k
        | some n ↦ returns n (record (with_current (λ _. cur') k) { files = upd k.files at file })
      ]
]

-- SYS_OPEN; `at` is the address that `kmalloc` has for the `file_t`, or NULL.
pub sys_open : (fuel at addr : ℕ) → Kernel → Outcome
sys_open fuel at addr k = elim (resolve_user_path addr 256 k) [
  | none ↦ fails k
  | some path ↦
      let (file, nodes) = open_file fuel (not (at == 0)) k.mounts path k.nodes in
      elim file [
        | none ↦ fails (record k { nodes = nodes })
        | some f ↦ give_fd at f (record k { nodes = nodes })
      ]
]

-- SYS_CREATE
pub sys_create : (fuel at addr : ℕ) → Kernel → Outcome
sys_create fuel at addr k = elim (resolve_user_path addr 256 k) [
  | none ↦ fails k
  | some path ↦
      let (file, nodes) = create_file fuel (not (at == 0)) k.mounts path k.nodes in
      elim file [
        | none ↦ fails (record k { nodes = nodes })
        | some f ↦ give_fd at f (record k { nodes = nodes })
      ]
]

-- An end of a pipe is given up; the counts are 32-bit ints.
unfoldable pub drop_end : (kind : ℕ) → Pipe → Pipe
drop_end kind p =
    let q : Pipe =
      if kind == fd_type_pipe_r
      then record p { readers = (p.readers + 2 ^ 32 - 1) % 2 ^ 32 }
      else record p { writers = (p.writers + 2 ^ 32 - 1) % 2 ^ 32 } in
    if q.readers == 0 && q.writers == 0 then record q { used = false } else q

-- SYS_CLOSE. `vfs_close` only frees memory.
unfoldable pub sys_close : (fd : ℕ) → Kernel → Outcome
sys_close fd k = elim (current k) [
  | none ↦ fails k
  | some cur ↦
      let e = cur.fd fd in
      let freed = with_current (fd_free fd) k in
      if leb task_max_fd fd || not e.used
      then fails k
      else if e.kind == fd_type_pipe_r || e.kind == fd_type_pipe_w
      then returns 0 (record freed {
        pipes = upd k.pipes (pipe_slot e.ptr) (drop_end e.kind (k.pipes (pipe_slot e.ptr)));
      })
      else returns 0 freed
]

-- SYS_READDIR. With an empty buffer the end of string goes to the byte in front of it.
pub sys_readdir : (fuel addr out size : ℕ) → Kernel → Outcome
sys_readdir fuel addr out size k = elim (resolve_user_path addr 256 k) [
  | none ↦ fails k
  | some path ↦
      let (entries, nodes) = Calls.readdir fuel k.mounts path k.nodes in
      if not (validate_user_ptr out size k.mapped) then fails k else elim entries [
        | none ↦ fails (record k { nodes = nodes; mem = upd k.mem out 0 })
        | some es ↦
            let (used, mem) = write_listing out size es k.mem in
            if size == 0
            then returns 0 (record k { nodes = nodes; mem = upd k.mem (out - 1) 0 })
            else returns used (record k { nodes = nodes; mem = mem })
      ]
]

-- SYS_UNLINK
pub sys_unlink : (fuel addr : ℕ) → Kernel → Outcome
sys_unlink fuel addr k = elim (resolve_user_path addr 256 k) [
  | none ↦ fails k
  | some path ↦
      let (r, nodes) = unlink_file fuel k.mounts path k.nodes in
      returns (if leb (2 ^ 31) r then minus_one else 0) (record k { nodes = nodes })
]

-- SYS_STAT: the size and the flags go to the caller where it gives an address.
pub sys_stat : (fuel addr size_out flags_out : ℕ) → Kernel → Outcome
sys_stat fuel addr size_out flags_out k = elim (resolve_user_path addr 256 k) [
  | none ↦ fails k
  | some path ↦
      let (r, nodes) = stat fuel k.mounts path k.nodes in
      if not (size_out == 0) && not (validate_user_ptr size_out 4 k.mapped)
      then fails k
      else if not (flags_out == 0) && not (validate_user_ptr flags_out 1 k.mapped)
      then fails k
      else elim r [
        | none ↦ fails (record k { nodes = nodes })
        | some (size, flags) ↦
            let mem1 = if size_out == 0 then k.mem else store_word size_out size k.mem in
            let mem2 = if flags_out == 0 then mem1 else upd mem1 flags_out (flags % 2 ^ 8) in
            returns size (record k { nodes = nodes; mem = mem2 })
      ]
]
