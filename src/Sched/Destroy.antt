-- ===== src/Sched/Destroy.antt =====
-- kernel/scheduler.c: task_destroy and scheduler_init.
use epona_os.Base.{ℕ, List, [], ◌∷◌, ◌==◌, if◌then◌else◌}
use epona_os.Pmm
use epona_os.Task.{Task, running}
use epona_os.Sched.{Sched, create, map_current}

-- The task with this address leaves the list. If it is the current one, the next one is.
pub unlink : (self : ℕ) → List Task → List Task
unlink self [] = []
unlink self (t ∷ ts) = let rest = unlink self ts in if t.self == self then ts else t ∷ rest

-- `task_destroy` of a task in the list.
pub destroy : Task → Sched → Sched
destroy t s =
    let freed = if t.kernel_stack_base == 0 then s.pmm else Pmm.free t.kernel_stack_base s.pmm in
    record s { ring = unlink t.self s.ring; pmm = Pmm.free t.self freed }

-- `scheduler_init`; `idle` is the address of `idle_task`.
pub scheduler_init : (idle : ℕ) → Sched → Sched
scheduler_init idle s =
    let (_, s') = create idle (record s { kernel_cr3 = s.cr3 }) in
    record s' { ring = map_current (λ t. record t { state = running }) s'.ring }
