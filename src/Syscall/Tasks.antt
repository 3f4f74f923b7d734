-- ===== src/Syscall/Tasks.antt =====
-- kernel/syscall.c: the calls on tasks, signals and descriptors.
use epona_os.Base.{
  ℕ, zero, suc, ◌+◌, ◌-◌, ◌%◌, ◌^◌, true, false, ◌&&◌, ◌||◌, not, Option, none, some, List, [], ◌∷◌,
  upd, ltb, leb, ◌==◌, if◌then◌else◌,
}
use epona_os.Pmm
use epona_os.Pipe
use epona_os.Pipe.{Pipe}
use epona_os.Task.{
  Task, terminated, task_max_fd, task_max_signals, fd_type_file, fd_alloc, fd_free, fd_close_all,
}
use epona_os.Sched.{find, is_terminated, sigkill}
use epona_os.Sched.Destroy.{destroy}
use epona_os.Vfs.Calls.{File}
use epona_os.Syscall.{
  Kernel, Outcome, returns, leaves, jumps, resolve_user_path, fails, extend, validate_user_ptr,
  store_word,
}
use epona_os.Syscall.Files.{current, with_current, fd_type_pipe_r, fd_type_pipe_w, pipe_ptr}

-- The task closes its files and ends.
abbrev pub ended : (code : ℕ) → Task → Task
ended code t = record (fd_close_all t).1 { exit_code = code % 2 ^ 32; state = terminated }

-- SYS_EXIT: back to the shell that started the program, or the machine stops. The line that it prints by `gpu_print`
-- on the console is not part of the state.
pub sys_exit : (code : ℕ) → Kernel → Outcome
sys_exit code k = leaves (with_current (ended code) k)

-- SYS_PIPE: the two descriptors go to `addr`.
unfoldable pub sys_pipe : (addr : ℕ) → Kernel → Outcome
sys_pipe addr k =
    let (slot, pipes) = Pipe.alloc k.pipes in
    if not (validate_user_ptr addr 8 k.mapped) then fails k else elim slot [
      | none ↦ fails k
      | some p ↦
          let unused = upd pipes p (record (pipes p) { used = false }) in
          elim (current k) [
            | none ↦ fails (record k { pipes = unused })
            | some cur ↦
                let (rfd, cur1) = fd_alloc (pipe_ptr p) fd_type_pipe_r cur in
                let (wfd, cur2) = fd_alloc (pipe_ptr p) fd_type_pipe_w cur1 in
                elim rfd [
                  | none ↦ fails (record k { pipes = unused })
                  | some r ↦ elim wfd [
                    | none ↦
                        fails (record (with_current (λ _. fd_free r cur2) k) { pipes = unused })
                    | some w ↦ returns 0 (record (with_current (λ _. cur2) k) {
                      pipes = pipes;
                      mem = store_word (addr + 4) w (store_word addr r k.mem);
                    })
                  ]
                ]
          ]
    ]

-- The loop of SYS_FORK over the descriptors: an open file gets a `file_t` of its own, at the address that
-- `kmalloc` has for descriptor `i`, or NULL.
pub copy_files : (n i : ℕ) (at : ℕ → ℕ) → Task → (ℕ → File) → Task × (ℕ → File)
copy_files zero i at child files = (child, files)
copy_files (suc n) i at child files =
    let e = child.fd i in
    let without : Task = record child { fd = upd child.fd i (record e { used = false }) } in
    let copied : Task = record child { fd = upd child.fd i (record e { ptr = at i }) } in
    let skip = copy_files n (i + 1) at child files in
    let lost = copy_files n (i + 1) at without files in
    let copy = copy_files n (i + 1) at copied (upd files (at i) (files e.ptr)) in
    if e.used && e.kind == fd_type_file then (if at i == 0 then lost else copy) else skip

-- What SYS_FORK sets in the copy of the current task.
abbrev pub forked : (self stack cr3 : ℕ) → Task → Task
forked self stack cr3 cur = record cur {
  self = self;
  rsp = (stack + (cur.rsp + 2 ^ 64 - cur.kernel_stack_base)) % 2 ^ 64;
  kernel_stack_base = stack;
  cr3 = cr3;
  ppid = cur.pid;
  pid = 0;
}

-- SYS_FORK. Of `paging_clone_current` it is the new table's frame; the copy of the stack is left out.
unfoldable pub sys_fork : (at : ℕ → ℕ) → Kernel → Outcome
sys_fork at k = elim k.sched.ring [
  | [] ↦ fails k
  | ◌∷◌ cur others ↦
      let (table, pmm1) = Pmm.alloc k.sched.pmm in
      let (self, pmm2) = Pmm.alloc pmm1 in
      let (stack, pmm3) = Pmm.alloc pmm2 in
      let (child, files) = copy_files task_max_fd 0 at (forked self stack table cur) k.files in
      if table == 0
      then fails (record k { sched = record k.sched { pmm = pmm1 } })
      else if self == 0
      then fails (record k { sched = record k.sched { pmm = pmm2 } })
      else if stack == 0
      then fails (record k { sched = record k.sched { pmm = Pmm.free self pmm3 } })
      else returns 0 (record k {
        sched = record k.sched { pmm = pmm3; ring = cur ∷ child ∷ others };
        files = files;
      })
]

-- The loop of SYS_WAIT: the first ended child.
pub find_ended : (pid : ℕ) → List Task → Option Task
find_ended pid [] = none
find_ended pid (t ∷ ts) =
    let rest = find_ended pid ts in if t.ppid == pid && is_terminated t.state then some t else rest

-- SYS_WAIT
unfoldable pub sys_wait : Kernel → Outcome
sys_wait k = elim k.sched.ring [
  | [] ↦ fails k
  | ◌∷◌ cur others ↦ elim (find_ended cur.pid others) [
    | none ↦ fails k
    | some child ↦ returns (extend child.exit_code) (record k { sched = destroy child k.sched })
  ]
]

-- SYS_GETPID, SYS_GETPPID
pub sys_getpid : Kernel → Outcome
sys_getpid k = elim (current k) [ none ↦ returns 0 k | some cur ↦ returns cur.pid k ]

pub sys_getppid : Kernel → Outcome
sys_getppid k = elim (current k) [ none ↦ returns 0 k | some cur ↦ returns cur.ppid k ]

-- What is done to the first task with the pid, in the order of `task_find`.
pub change_task : (pid : ℕ) (f : Task → Task) → List Task → List Task
change_task pid f [] = []
change_task pid f (t ∷ ts) =
    let rest = change_task pid f ts in if t.pid == pid then f t ∷ ts else t ∷ rest

-- The signal as a 32-bit pattern.
abbrev pub signalled : (sig : ℕ) → Task → Task
signalled sig t =
    if sig == sigkill
    then record t { state = terminated; exit_code = 2 ^ 32 - sigkill }
    else if ltb sig task_max_signals
    then record t { signals = upd t.signals sig (record (t.signals sig) { pending = true }) }
    else t

-- SYS_KILL
unfoldable pub sys_kill : (pid sig : ℕ) → Kernel → Outcome
sys_kill pid sig k =
    let pid32 = pid % 2 ^ 32 in
    elim (find pid32 k.sched.ring) [
      | none ↦ fails k
      | some _ ↦ returns 0 (record k {
        sched = record k.sched { ring = change_task pid32 (signalled (sig % 2 ^ 32)) k.sched.ring };
      })
    ]

-- SYS_SIGNAL
pub sys_signal : (sig handler : ℕ) → Kernel → Outcome
sys_signal sig handler k =
    let sig32 = sig % 2 ^ 32 in
    elim (current k) [
      | none ↦ fails k
      | some _ ↦
          if leb task_max_signals sig32
          then fails k
          else returns 0 (
              with_current
                (λ t. record t {
                  signals = upd t.signals sig32 (record (t.signals sig32) { handler = handler });
                })
                k)
    ]

-- SYS_DUP2. `vfs_close` of the file that was there only frees memory; the counts of a pipe stay as they are.
unfoldable pub sys_dup2 : (oldfd newfd : ℕ) → Kernel → Outcome
sys_dup2 oldfd newfd k =
    let old32 = oldfd % 2 ^ 32 in
    let new32 = newfd % 2 ^ 32 in
    elim (current k) [
      | none ↦ fails k
      | some cur ↦
          if leb task_max_fd old32 || not (cur.fd old32).used
          then fails k
          else if leb task_max_fd new32
          then fails k
          else returns new32 (with_current (λ t. record t { fd = upd t.fd new32 (t.fd old32) }) k)
    ]

-- SYS_GETCWD: always the root.
pub sys_getcwd : (addr room : ℕ) → Kernel → Outcome
sys_getcwd addr room k =
    let mem1 = upd k.mem addr b'/' in
    if not (validate_user_ptr addr room k.mapped)
    then returns 0 k
    else returns 0 (record k { mem = if ltb 1 room then upd mem1 (addr + 1) 0 else mem1 })

-- `elf_load`: the entry point, the top of the stack and the page table, or -1.
abbrev pub Loader : Type 0
Loader = List ℕ → Kernel → Option (ℕ × ℕ × ℕ) × Kernel

-- SYS_EXEC
unfoldable pub sys_exec : Loader → (addr : ℕ) → Kernel → Outcome
sys_exec elf_load addr k = elim (resolve_user_path addr 256 k) [
  | none ↦ fails k
  | some path ↦
      let (image, loaded) = elf_load path k in
      elim image [
        | none ↦ fails loaded
        | some (entry, stack_top, pml4) ↦
            jumps entry stack_top pml4 (with_current (λ t. (fd_close_all t).1) loaded)
      ]
]

abbrev pub reboot_cmd_shutdown : ℕ
reboot_cmd_shutdown = 0x08

abbrev pub reboot_cmd_reboot : ℕ
reboot_cmd_reboot = 0x10

-- SYS_REBOOT. The line that it prints by `gpu_print` on the console is not part of the state.
pub sys_reboot : (cmd : ℕ) → Kernel → Outcome
sys_reboot cmd k =
    if cmd == reboot_cmd_shutdown
    then leaves k
    else if cmd == reboot_cmd_reboot
    then leaves k
    else returns 0 k
