-- ===== src/Sched/Running.antt =====
-- kernel/scheduler.c: which tasks are RUNNING, and what a switch does to the task that it leaves.
use epona_os.Base.{
  ℕ, zero, suc, ◌+◌, ◌/◌, ◌%◌, ◌^◌, ◌≡◌, refl, ap, inl, inr, Bool, true, false, ◌||◌, List, [], ◌∷◌,
  ◌++◌, arith, upd, ◌==◌, if◌then◌else◌, Bool-cases, if_elim,
}
use epona_os.Task.{TaskState, ready, running, sleeping, Task}
use epona_os.Pmm
use epona_os.Sched.{
  Sched, current_pid, is_terminated, skippable, skip_idle, release, reap, switch_to, schedule_ring,
  schedule, create, insert_task, new_task, sleep, map_current, deliver, wake, tick_task, tick_tasks,
  tick,
}

abbrev pub is_running : TaskState → Bool
is_running running = true
is_running _ = false

abbrev pub NoneRunning : List Task → Type 0
NoneRunning [] = Unit
NoneRunning (t ∷ ts) = (is_running t.state ≡ false) × NoneRunning ts

-- Only the current task may be RUNNING.
abbrev pub OneRunning : List Task → Type 0
OneRunning [] = Unit
OneRunning (cur ∷ rest) = NoneRunning rest

NoneRunning-append : (ts us : List Task) → NoneRunning ts → NoneRunning us → NoneRunning (ts ++ us)
NoneRunning-append [] us h k = k
NoneRunning-append (t ∷ ts) us h k = (h.0, NoneRunning-append ts us h.1 k)

skip_idle-NoneRunning :
    (ts : List Task) → NoneRunning ts → NoneRunning (skip_idle ts).0 × NoneRunning (skip_idle ts).1
unfolding skip_idle
skip_idle-NoneRunning [] h = (tt, tt)
skip_idle-NoneRunning (t ∷ ts) h = elim (Bool-cases (skippable t)) [
  | inl skip ↦ let ih = skip_idle-NoneRunning ts h.1 in rw skip ((h.0, ih.0), ih.1)
  | inr stop ↦ rw stop (tt, h)
]

reap-NoneRunning : (ts : List Task) (s : Sched) → NoneRunning ts → NoneRunning (reap ts s).0
unfolding reap
reap-NoneRunning [] s h = tt
reap-NoneRunning (t ∷ ts) s h = elim (Bool-cases (is_terminated t.state)) [
  | inl gone ↦ rw gone (reap-NoneRunning ts (release t s) h.1)
  | inr kept ↦ rw kept (h.0, reap-NoneRunning ts s h.1)
]

switch_to-OneRunning :
    (cur : Task) (skipped rest : List Task) (s : Sched)
    → OneRunning s.ring
    → NoneRunning skipped
    → NoneRunning rest
    → OneRunning (switch_to cur skipped rest s).ring
unfolding switch_to
switch_to-OneRunning cur skipped [] s h k r = elim (Bool-cases (is_terminated cur.state)) [
  | inl gone ↦ rw gone h
  | inr alive ↦ rw alive h
]
switch_to-OneRunning cur skipped (next ∷ tail) s h k r =
    NoneRunning-append (reap tail s).0 _ (reap-NoneRunning tail s r.1) (refl, k)

schedule_ring-OneRunning :
    (ring : List Task) (s : Sched)
    → OneRunning s.ring
    → OneRunning ring
    → OneRunning (schedule_ring ring s).ring
unfolding schedule_ring
schedule_ring-OneRunning [] s h k = h
schedule_ring-OneRunning (cur ∷ others) s h k =
    let found = skip_idle-NoneRunning others k in
    switch_to-OneRunning cur (skip_idle others).0 (skip_idle others).1 s h found.0 found.1

schedule-OneRunning : (s : Sched) → OneRunning s.ring → OneRunning (schedule s).ring
unfolding schedule
schedule-OneRunning s h = schedule_ring-OneRunning s.ring s h h

map_current-OneRunning :
    (f : Task → Task) (ring : List Task) → OneRunning ring → OneRunning (map_current f ring)
map_current-OneRunning f [] h = tt
map_current-OneRunning f (cur ∷ rest) h = h

sleep-OneRunning : (ms now : ℕ) (s : Sched) → OneRunning s.ring → OneRunning (sleep ms now s).ring
unfolding sleep
sleep-OneRunning ms now s h = schedule-OneRunning _ (map_current-OneRunning _ s.ring h)

insert-OneRunning :
    (t : Task) (ring : List Task)
    → is_running t.state ≡ false
    → OneRunning ring
    → OneRunning (insert_task t ring)
unfolding insert_task
insert-OneRunning t [] e h = tt
insert-OneRunning t (cur ∷ rest) e h = (e, h)

create-OneRunning : (entry : ℕ) (s : Sched) → OneRunning s.ring → OneRunning (create entry s).1.ring
unfolding create new_task
create-OneRunning entry s h =
    let task = Pmm.alloc s.pmm in
    let stack = Pmm.alloc task.1 in
    elim (Bool-cases (task.0 == 0 || stack.0 == 0)) [
      | inl failed ↦ rw failed h
      | inr got ↦ rw got (
          insert-OneRunning (new_task task.0 stack.0 entry s.next_pid (current_pid s.ring)) s.ring
            refl h)
    ]

deliver-not_running :
    (n sig : ℕ) (t : Task) → is_running t.state ≡ false → is_running (deliver n sig t).state ≡ false
unfolding deliver
deliver-not_running zero sig t h = h
deliver-not_running (suc n) sig t h = ground (
  arith,
  deliver-not_running n (sig + 1) t h,
  deliver-not_running n (sig + 1)
      (record t { signals = upd t.signals sig (record (t.signals sig) { pending = false }) }) h,
)

tick_task-not_running :
    (now : ℕ) (t : Task) → is_running t.state ≡ false → is_running (tick_task now t).state ≡ false
unfolding tick_task wake
tick_task-not_running now t h =
    let woken = wake now t in
    let still : is_running woken.state ≡ false = ground arith in
    if_elim (λ (u : Task). is_running u.state ≡ false) (is_terminated woken.state) (λ _. still)
      (λ _. deliver-not_running 32 0 woken still)

tick_tasks-NoneRunning :
    (now : ℕ) (ts : List Task) → NoneRunning ts → NoneRunning (tick_tasks now ts)
unfolding tick_tasks
tick_tasks-NoneRunning now [] h = tt
tick_tasks-NoneRunning now (t ∷ ts) h =
    (tick_task-not_running now t h.0, tick_tasks-NoneRunning now ts h.1)

tick_tasks-OneRunning : (now : ℕ) (ts : List Task) → OneRunning ts → OneRunning (tick_tasks now ts)
unfolding tick_tasks
tick_tasks-OneRunning now [] h = tt
tick_tasks-OneRunning now (t ∷ ts) h = tick_tasks-NoneRunning now ts h

-- What may happen to the scheduler.
pub data Step (s : Sched) : Sched → Type 0 where
  creates : (entry : ℕ) → Step s (create entry s).1
  yields : Step s (schedule s)
  sleeps : (ms now : ℕ) → Step s (sleep ms now s)
  ticks : (now : ℕ) → Step s (tick now s)

pub data Reach (s : Sched) : Sched → Type 0 where
  stay : Reach s s
  go : {t u : Sched} → Reach s t → Step t u → Reach s u

Step-OneRunning : {s t : Sched} → Step s t → OneRunning s.ring → OneRunning t.ring
unfolding tick
Step-OneRunning {s} (creates entry) h = create-OneRunning entry s h
Step-OneRunning {s} yields h = schedule-OneRunning s h
Step-OneRunning {s} (sleeps ms now) h = sleep-OneRunning ms now s h
Step-OneRunning {s} (ticks now) h = tick_tasks-OneRunning now s.ring h

-- After any calls of `task_create`, `task_yield`, `task_sleep` and `scheduler_tick`, no task but
-- the current one is RUNNING, if that was so before.
pub Reach-OneRunning : {s t : Sched} → OneRunning s.ring → Reach s t → OneRunning t.ring
Reach-OneRunning h stay = h
Reach-OneRunning h (go r st) = Step-OneRunning st (Reach-OneRunning h r)

-- The task of `cur`'s address stands in the ring and is READY.
abbrev pub IsReadyIn : Task → List Task → Type 0
IsReadyIn cur ring =
    (pre : List Task) × (t : Task) × (post : List Task) × (ring ≡ pre ++ (t ∷ post))
    × (t.self ≡ cur.self)
    × (t.state ≡ ready)

switch_to-leaves_ready :
    (cur : Task) (skipped : List Task) (next : Task) (tail : List Task) (s : Sched)
    → IsReadyIn cur (switch_to cur skipped (next ∷ tail) s).ring
unfolding switch_to
switch_to-leaves_ready cur skipped next tail s =
    (record next { state = running } ∷ (reap tail s).0, _, skipped, refl, refl, refl)

ring_leaves_ready :
    (ring : List Task) (s : Sched) {cur : Task} {others : List Task} {next : Task}
    {tail : List Task}
    → ring ≡ cur ∷ others
    → (skip_idle others).1 ≡ next ∷ tail
    → IsReadyIn cur (schedule_ring ring s).ring
unfolding schedule_ring
ring_leaves_ready ring s {cur} {others} {next} {tail} e f =
    rw (e, f) (switch_to-leaves_ready cur (skip_idle others).0 next tail s)

-- When `schedule` finds another task to run, the task that it leaves is READY afterwards, whatever
-- its state was: one that has just gone to sleep, or exited, will be run again.
pub schedule_leaves_ready :
    (s : Sched) {cur : Task} {others : List Task} {next : Task} {tail : List Task}
    → s.ring ≡ cur ∷ others
    → (skip_idle others).1 ≡ next ∷ tail
    → IsReadyIn cur (schedule s).ring
unfolding schedule
schedule_leaves_ready s e f = ring_leaves_ready s.ring s e f

-- When another task can run, `task_sleep` does not put the caller to sleep: the caller is READY
-- afterwards, whatever the time to sleep.
pub sleep_lost :
    (ms now : ℕ) (s : Sched) {cur : Task} {others : List Task} {next : Task} {tail : List Task}
    → s.ring ≡ cur ∷ others
    → (skip_idle others).1 ≡ next ∷ tail
    → IsReadyIn cur (sleep ms now s).ring
unfolding sleep schedule
sleep_lost ms now s {cur} {others} e f =
    let asleep : Task → Task = λ t. record t {
      wake_tick = (now + (if ms / 10 == 0 then 1 else ms / 10)) % 2 ^ 64;
      state = sleeping;
    } in
    ring_leaves_ready (map_current asleep s.ring) (record s { ring = map_current asleep s.ring })
      {cur = asleep cur} (ap (map_current asleep) e) f
