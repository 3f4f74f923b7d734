-- ===== src/Sched.antt =====
-- kernel/scheduler.c: the tasks, round robin, sleeping, signals. The circular list of tasks is the list
-- `ring`, which starts at `g_current` and follows the `next` links once round; the empty ring is
-- `g_current == NULL`. `context_switch` saves the stack pointer and loads another; CR3 and the stack
-- pointer of the processor are fields. What `idle_task` and the other entries run is not modelled, nor
-- are the words that `task_create` writes on the new stack.
use epona_os.Base.{
  ℕ, zero, suc, ◌+◌, ◌-◌, ◌*◌, ◌/◌, ◌%◌, ◌^◌, ◌≤◌, ◌<◌, bit_and, bit_or, bit_xor, ◌≡◌, refl, sym,
  ap, ◌∙◌, ◌≢◌, ◌↔◌, ◌⊎◌, inl, inr, Bool, true, false, ◌&&◌, ◌||◌, not, Option, none, some, List,
  [], ◌∷◌, ◌++◌, arith, Arr, upd, upd_self, upd_ne, subst, length, length-append, ltb, leb, ◌==◌,
  ==_iff, if◌then◌else◌, Bool-cases, if_elim, extend_down, Option-cases, ltb→lt, &&_split,
  all_below, all_below_sound,
}
use epona_os.Pmm
use epona_os.Pmm.{Pmm}
use epona_os.Task.{
  TaskState, ready, running, blocked, terminated, sleeping, Task, Signal, no_fd, no_signal,
  fd_close_all, task_stack_size, task_max_signals,
}
pub mod Round
pub mod Running
pub mod Tick
pub mod Create
pub mod Destroy
mod Examples

pub record Sched : Type 0 where
  pub ring : List Task
  pub next_pid : ℕ
  pub kernel_cr3 : ℕ
  pub pmm : Pmm
  -- the processor
  pub cr3 : ℕ
  pub rsp : ℕ
  pub halted : Bool
  -- the files handed to `vfs_close`, in order
  pub closed : List ℕ

abbrev pub is_terminated : TaskState → Bool
is_terminated terminated = true
is_terminated _ = false

abbrev pub is_sleeping : TaskState → Bool
is_sleeping sleeping = true
is_sleeping _ = false

-- What a new task has before it is linked in. Its stack pointer lies seven words below the top.
pub new_task : (self stack entry pid ppid : ℕ) → Task
new_task self stack entry pid ppid = record {
  self = self;
  pid = pid;
  ppid = ppid;
  state = ready;
  rsp = stack + task_stack_size - 8 - 6 * 8;
  cr3 = 0;
  entry = entry;
  wake_tick = 0;
  exit_code = 0;
  fd = λ _. no_fd;
  signals = λ _. no_signal;
  kernel_stack_base = stack;
}

pub insert_task : Task → List Task → List Task
insert_task t [] = t ∷ []
insert_task t (cur ∷ rest) = cur ∷ t ∷ rest

abbrev pub current_pid : List Task → ℕ
current_pid [] = 0
current_pid (cur ∷ _) = cur.pid

-- `task_create`: the pid, or 0.
pub create : ℕ → Sched → ℕ × Sched
create entry s =
    let task = Pmm.alloc s.pmm in
    let stack = Pmm.alloc task.1 in
    if task.0 == 0 || stack.0 == 0 then (0, record s { pmm = stack.1 }) else (
      s.next_pid,
      record s {
        pmm = stack.1;
        next_pid = (s.next_pid + 1) % 2 ^ 32;
        ring = insert_task (new_task task.0 stack.0 entry s.next_pid (current_pid s.ring)) s.ring;
      },
    )

-- `task_find`: the first task from the current one on that has the pid.
pub find : ℕ → List Task → Option Task
find pid [] = none
find pid (t ∷ ts) = if t.pid == pid then some t else find pid ts

-- `schedule` passes over terminated and sleeping tasks.
abbrev pub skippable : Task → Bool
skippable t = is_terminated t.state || is_sleeping t.state

pub skip_idle : List Task → List Task × List Task
skip_idle [] = ([], [])
skip_idle (t ∷ ts) =
    let rest : List Task × List Task = skip_idle ts in
    if skippable t then (t ∷ rest.0, rest.1) else ([], t ∷ ts)

-- A terminated task that is unlinked: its files, its stack and its `task_struct_t`.
pub release : Task → Sched → Sched
release t s = record s {
  closed = s.closed ++ (fd_close_all t).0;
  pmm = Pmm.free t.self (Pmm.free t.kernel_stack_base s.pmm);
}

-- The clean-up loop of `schedule` over the tasks behind `next`.
pub reap : List Task → Sched → List Task × Sched
reap [] s = ([], s)
reap (t ∷ ts) s =
    let kept : List Task × Sched = reap ts s in
    let gone : List Task × Sched = reap ts (release t s) in
    if is_terminated t.state then gone else (t ∷ kept.0, kept.1)

-- The last part of `schedule`: nobody else to run, or the switch to the first of the third argument.
pub switch_to : Task → List Task → List Task → Sched → Sched
switch_to cur skipped [] s = if is_terminated cur.state then record s { halted = true } else s
switch_to cur skipped (next ∷ tail) s =
    let reaped : List Task × Sched = reap tail s in
    record (reaped.1) {
      ring =
          record next { state = running }
          ∷ (reaped.0 ++ (record cur { state = ready; cr3 = s.cr3; rsp = s.rsp } ∷ skipped));
      cr3 = if next.cr3 == 0 then s.kernel_cr3 else next.cr3;
      rsp = next.rsp;
    }

pub schedule_ring : List Task → Sched → Sched
schedule_ring [] s = s
schedule_ring (cur ∷ others) s =
    let found : List Task × List Task = skip_idle others in switch_to cur found.0 found.1 s

pub schedule : Sched → Sched
schedule s = schedule_ring s.ring s

abbrev pub map_current : (Task → Task) → List Task → List Task
map_current f [] = []
map_current f (cur ∷ rest) = f cur ∷ rest

-- `task_sleep`; `now` is what `pit_ticks` returns.
pub sleep : (ms now : ℕ) → Sched → Sched
sleep ms now s =
    let ticks : ℕ = if ms / 10 == 0 then 1 else ms / 10 in
    schedule (record s {
      ring =
          map_current (λ t. record t { wake_tick = (now + ticks) % 2 ^ 64; state = sleeping })
            s.ring;
    })

abbrev pub sigint : ℕ
sigint = 2

abbrev pub sigkill : ℕ
sigkill = 9

abbrev pub sigterm : ℕ
sigterm = 15

-- The loop of `scheduler_tick` over the signals from `sig` on. The exit code -sig is a 32-bit pattern.
pub deliver : ℕ → ℕ → Task → Task
deliver zero sig t = t
deliver (suc n) sig t =
    let e : Signal = t.signals sig in
    let t' : Task = record t { signals = upd t.signals sig (record e { pending = false }) } in
    let stays : Task = deliver n (sig + 1) t in
    let goes_on : Task = deliver n (sig + 1) t' in
    let dies : Task = record t' { state = terminated; exit_code = 2 ^ 32 - sig } in
    if e.pending && not e.mask
    then (if sig == sigkill
        then dies
        else if not (e.handler == 0) && (sig == sigint || sig == sigterm)
        then dies
        else goes_on)
    else stays

pub wake : ℕ → Task → Task
wake now t = if is_sleeping t.state && leb t.wake_tick now then record t { state = ready } else t

pub tick_task : ℕ → Task → Task
tick_task now t =
    let t' = wake now t in if is_terminated t'.state then t' else deliver task_max_signals 0 t'

pub tick_tasks : ℕ → List Task → List Task
tick_tasks now [] = []
tick_tasks now (t ∷ ts) = tick_task now t ∷ tick_tasks now ts

-- `scheduler_tick`
pub tick : ℕ → Sched → Sched
tick now s = record s { ring = tick_tasks now s.ring }
