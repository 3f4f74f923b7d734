-- ===== src/Sched/Examples.antt =====
-- kernel/scheduler.c: runs of the scheduler, and the theorems at them.
use epona_os.Base.{ℕ, ◌*◌, ◌≡◌, refl, true, false, List, [], ◌∷◌, arith, ◌==◌, if◌then◌else◌}
use epona_os.Pmm
use epona_os.Pmm.{Pmm, bm_test, bm_set}
use epona_os.Pmm.Count.{IsValid, count_used}
use epona_os.Task.{TaskState, ready, running, sleeping, terminated, Task, no_fd, no_signal}
use epona_os.Sched.{
  Sched, create, skip_idle, reap, release, switch_to, schedule_ring, schedule, sleep, tick,
}
use epona_os.Sched.Round.{addresses, times, rotate, round_robin}
use epona_os.Sched.Running.{OneRunning, stay, go, creates, yields, sleeps, ticks, Reach-OneRunning}

abbrev task : ℕ → TaskState → Task
task n state = record {
  self = n * 4096;
  pid = n;
  ppid = 0;
  state = state;
  rsp = 0;
  cr3 = 0;
  entry = 0;
  wake_tick = 50;
  exit_code = 0;
  fd = λ _. no_fd;
  signals =
      λ sig. if sig == 9 then record { handler = 0; pending = true; mask = false } else no_signal;
  kernel_stack_base = 0;
}

-- As `task`, with no signal.
abbrev calm : ℕ → TaskState → Task
calm n state = record (task n state) { signals = λ _. no_signal }

-- Sixteen frames, of which 0 to 7 are in use.
abbrev memory : Pmm
memory = record { bitmap = λ i. if i == 0 then 255 else 0; total_frames = 16; used_frames = 8 }

memory-IsValid : IsValid memory
unfolding count_used bm_test
memory-IsValid = record { bytes = λ i. ground arith; small = omega arith; counted = refl }

abbrev sched : List Task → Sched
sched ring = record {
  ring = ring;
  next_pid = 4;
  kernel_cr3 = 0x1000;
  pmm = memory;
  cr3 = 0x1000;
  rsp = 0x9000;
  halted = false;
  closed = [];
}

abbrev three : Sched
three = sched (calm 1 running ∷ calm 2 ready ∷ calm 3 ready ∷ [])

-- Task 2 sleeps and is passed over, task 4 is terminated and is freed.
turned :
    addresses
      (schedule
        (sched (calm 1 running ∷ calm 2 sleeping ∷ calm 3 ready ∷ calm 4 terminated ∷ []))).ring
    ≡ 0x3000 ∷ 0x1000 ∷ 0x2000 ∷ []
unfolding schedule schedule_ring skip_idle switch_to reap release
turned = refl

round_robin_example :
    addresses (times 2 schedule three).ring ≡ times 2 rotate (0x1000 ∷ 0x2000 ∷ 0x3000 ∷ [])
round_robin_example = round_robin 2 three (refl, (refl, (refl, tt)))

Reach-OneRunning_example :
    OneRunning (sleep 10 7 (tick 5 (schedule (create 0x400000 three).1))).ring
Reach-OneRunning_example =
    Reach-OneRunning {s = three} (refl, (refl, tt))
      (go (go (go (go stay (creates 0x400000)) yields) (ticks 5)) (sleeps 10 7))

created_pid : (create 0x400000 three).0 ≡ 4
unfolding create Pmm.alloc Pmm.alloc_loop bm_test bm_set
created_pid = refl
