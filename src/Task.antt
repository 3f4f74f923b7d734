-- ===== src/Task.antt =====
-- include/scheduler.h and the file descriptor helpers of kernel/scheduler.c. A task carries the address
-- of its `task_struct_t` in `self`, since a pointer to it is compared with others and freed. The
-- arrays `fd` and `signals` are functions from the index. The links `next`, `children` and
-- `next_child` are not fields: see `Sched` for the list of tasks; the other two are never used.
use epona_os.Base.{
  ℕ, zero, suc, ◌+◌, ◌-◌, ◌*◌, ◌/◌, ◌%◌, ◌^◌, ◌≤◌, ◌<◌, bit_and, bit_or, bit_xor, ◌≡◌, refl, sym,
  ap, ◌∙◌, ◌≢◌, ◌↔◌, ◌⊎◌, inl, inr, Bool, true, false, ◌&&◌, ◌||◌, not, Option, none, some, List,
  [], ◌∷◌, ◌++◌, arith, Arr, upd, upd_self, upd_ne, subst, length, length-append, ltb, leb, ◌==◌,
  ==_iff, if◌then◌else◌, Bool-cases, if_elim, extend_down, Option-cases, ltb→lt, &&_split,
  all_below, all_below_sound,
}
pub mod Fd
mod Examples

abbrev pub task_stack_size : ℕ
task_stack_size = 16 * 1024

abbrev pub task_max_fd : ℕ
task_max_fd = 32

abbrev pub task_max_signals : ℕ
task_max_signals = 32

-- `task_state_t`
pub data TaskState : Type 0 where
  ready running blocked terminated sleeping : TaskState

-- FD_TYPE_*, and 0 for an unused entry. `ptr` of a file is its `file_t`, of a pipe its slot, as an address.
pub record FdEntry : Type 0 where
  pub ptr : ℕ
  pub kind : ℕ
  pub used : Bool

abbrev pub fd_type_file : ℕ
fd_type_file = 1

abbrev pub no_fd : FdEntry
no_fd = record { ptr = 0; kind = 0; used = false }

-- `handler` is an address, 0 for none; `mask` says whether the signal is held back.
pub record Signal : Type 0 where
  pub handler : ℕ
  pub pending : Bool
  pub mask : Bool

abbrev pub no_signal : Signal
no_signal = record { handler = 0; pending = false; mask = false }

-- `task_struct_t`; `exit_code` is the bit pattern of an `int`.
pub record Task : Type 0 where
  pub self : ℕ
  pub pid : ℕ
  pub ppid : ℕ
  pub state : TaskState
  pub rsp : ℕ
  pub cr3 : ℕ
  pub entry : ℕ
  pub wake_tick : ℕ
  pub exit_code : ℕ
  pub fd : ℕ → FdEntry
  pub signals : ℕ → Signal
  pub kernel_stack_base : ℕ

-- `task_fd_alloc`: the search from entry `i` on; none is the result -1. The task is not NULL.
pub fd_alloc_loop : ℕ → ℕ → ℕ → ℕ → Task → Option ℕ × Task
fd_alloc_loop zero i ptr kind t = (none, t)
fd_alloc_loop (suc n) i ptr kind t =
    let rest = fd_alloc_loop n (i + 1) ptr kind t in
    if not (t.fd i).used
    then (some i, record t { fd = upd t.fd i (record { ptr = ptr; kind = kind; used = true }) })
    else rest

pub fd_alloc : (ptr kind : ℕ) → Task → Option ℕ × Task
fd_alloc ptr kind t = fd_alloc_loop (task_max_fd - 3) 3 ptr kind t

-- A descriptor is a number: the callers reject negative ones, which as 32-bit patterns are not
-- below TASK_MAX_FD either.
unfoldable pub fd_free : ℕ → Task → Task
fd_free fd t = if leb task_max_fd fd then t else record t { fd = upd t.fd fd no_fd }

-- 0 is NULL.
unfoldable pub fd_get : ℕ → Task → ℕ
fd_get fd t = if leb task_max_fd fd || not (t.fd fd).used then 0 else (t.fd fd).ptr

-- `task_fd_close_all`: the files handed to `vfs_close`, in order, and the task.
pub fd_close_loop : ℕ → ℕ → Task → List ℕ × Task
fd_close_loop zero i t = ([], t)
fd_close_loop (suc n) i t =
    let e : FdEntry = t.fd i in
    let closed : List ℕ × Task = fd_close_loop n (i + 1) (record t { fd = upd t.fd i no_fd }) in
    let skipped : List ℕ × Task = fd_close_loop n (i + 1) t in
    if not e.used
    then skipped
    else if e.kind == fd_type_file && not (e.ptr == 0)
    then (e.ptr ∷ closed.0, closed.1)
    else closed

pub fd_close_all : Task → List ℕ × Task
fd_close_all t = fd_close_loop (task_max_fd - 3) 3 t
