-- ===== src/Sched/Create.antt =====
-- kernel/scheduler.c: what `task_create` makes of a valid frame allocator.
use epona_os.Base.{
  ℕ, ◌+◌, ◌*◌, ◌/◌, ◌%◌, ◌^◌, ◌≡◌, refl, ◌≢◌, ◌⊎◌, inl, inr, false, ◌||◌, arith, ◌==◌, Bool-cases,
}
use epona_os.Pmm
use epona_os.Pmm.{Pmm, page_size}
use epona_os.Pmm.Bitmap.{is_used}
use epona_os.Pmm.Count.{IsValid}
use epona_os.Pmm.Alloc.{Taken, AllocResult, alloc_first_free}
use epona_os.Task.{Task, ready}
use epona_os.Sched.{Sched, create, insert_task, new_task, current_pid}

-- The task that a successful `task_create` puts into the ring: its `task_struct_t` and its stack
-- stand in two different frames that were free and are in use now, and its first stack pointer is
-- in the third frame behind the frame of its stack.
pub record Created (s s' : Sched) (t : Task) : Type 0 where
  pub linked : s'.ring ≡ insert_task t s.ring
  pub pid : t.pid ≡ s.next_pid
  pub parent : t.ppid ≡ current_pid s.ring
  pub state : t.state ≡ ready
  pub valid : IsValid s'.pmm
  pub apart : t.self / page_size ≢ t.kernel_stack_base / page_size
  pub self_new : is_used s.pmm.bitmap (t.self / page_size) ≡ false
  pub stack_new : is_used s.pmm.bitmap (t.kernel_stack_base / page_size) ≡ false
  pub in_use :
      (g : ℕ)
      → is_used s'.pmm.bitmap g ≡ (
          is_used s.pmm.bitmap g
          || (t.self / page_size == g || t.kernel_stack_base / page_size == g))
  pub stack_outside : t.rsp / page_size ≡ t.kernel_stack_base / page_size + 3

abbrev pub CreateResult : Sched → ℕ × Sched → Type 0
CreateResult s (pid, s') =
    ((pid ≡ 0) × (s'.ring ≡ s.ring) × IsValid s'.pmm)
    ⊎ ((t : Task) × (pid ≡ t.pid) × Created s s' t)

alloc-IsValid : (m : Pmm) → IsValid m → IsValid (Pmm.alloc m).1
alloc-IsValid m v = by_case (Pmm.alloc m) (alloc_first_free m v)
  where
    by_case : (r : ℕ × Pmm) → AllocResult m 0 r → IsValid r.1
    by_case (p, n) (inl (z, same, all)) = rw same v
    by_case (p, n) (inr (f, lt, at, taken, all)) = taken.valid

alloc-Taken :
    (m : Pmm)
    → IsValid m
    → (Pmm.alloc m).0 ≢ 0
    → (f : ℕ) × ((Pmm.alloc m).0 ≡ f * page_size) × Taken m (Pmm.alloc m).1 f 1
alloc-Taken m v ne = by_case (Pmm.alloc m) ne (alloc_first_free m v)
  where
    by_case :
        (r : ℕ × Pmm)
        → r.0 ≢ 0
        → AllocResult m 0 r
        → (f : ℕ) × (r.0 ≡ f * page_size) × Taken m r.1 f 1
    by_case (p, n) ne (inl (z, same, all)) = absurd (ne z)
    by_case (p, n) ne (inr (f, lt, at, taken, all)) = (f, at, taken)

-- What the two allocations give together.
record TwoFrames (m n : Pmm) (p q : ℕ) : Type 0 where
  valid : IsValid n
  apart : p / page_size ≢ q / page_size
  aligned : q % page_size ≡ 0
  first_new : is_used m.bitmap (p / page_size) ≡ false
  second_new : is_used m.bitmap (q / page_size) ≡ false
  in_use :
      (g : ℕ)
      → is_used n.bitmap g ≡ (is_used m.bitmap g || (p / page_size == g || q / page_size == g))

two_frames :
    (m k n : Pmm) (p q f g : ℕ)
    → p ≡ f * page_size
    → q ≡ g * page_size
    → Taken m k f 1
    → Taken k n g 1
    → TwoFrames m n p q
two_frames m k n p q f g at at' taken taken' =
    let ef : p / page_size ≡ f = omega arith in
    let eg : q / page_size ≡ g = omega arith in
    let f_free = taken.were_free f (omega arith) (omega arith) in
    let g_free = taken'.were_free g (omega arith) (omega arith) in
    record {
      valid = taken'.valid;
      apart = ground (arith, taken.bits g, g_free);
      aligned = omega arith;
      first_new = rw ef f_free;
      second_new = rw eg (ground (arith, taken.bits g, g_free));
      in_use = λ i. ground (arith, taken.bits i, taken'.bits i);
    }

linked_task :
    (entry p q : ℕ) (s : Sched) (n : Pmm)
    → TwoFrames s.pmm n p q
    → let t = new_task p q entry s.next_pid (current_pid s.ring) in
      Created s
        (record s { pmm = n; next_pid = (s.next_pid + 1) % 2 ^ 32; ring = insert_task t s.ring })
        t
unfolding new_task
linked_task entry p q s n two = record {
  linked = refl;
  pid = refl;
  parent = refl;
  state = refl;
  valid = two.valid;
  apart = two.apart;
  self_new = two.first_new;
  stack_new = two.second_new;
  in_use = two.in_use;
  stack_outside = omega (arith, two.aligned);
}

created_pid : (p q entry pid ppid : ℕ) → pid ≡ (new_task p q entry pid ppid).pid
unfolding new_task
created_pid p q entry pid ppid = refl

-- On a valid frame allocator `task_create` either returns 0 and leaves the ring as it was, or
-- returns the next pid with a READY task linked in behind the current one; its structure and its
-- stack get a frame each, and its first stack pointer lies three frames behind the one frame that
-- was allocated for the stack.
pub create_lem : (entry : ℕ) (s : Sched) → IsValid s.pmm → CreateResult s (create entry s)
unfolding create
create_lem entry s v =
    let k : Pmm = (Pmm.alloc s.pmm).1 in
    let p = (Pmm.alloc s.pmm).0 in
    let q = (Pmm.alloc k).0 in
    let vk = alloc-IsValid s.pmm v in
    elim (Bool-cases (p == 0 || q == 0)) [
      | inl failed ↦ rw failed (inl (refl, refl, alloc-IsValid k vk))
      | inr got ↦
          let (f, at, taken) = alloc-Taken s.pmm v (ground arith) in
          let (g, at', taken') = alloc-Taken k vk (ground arith) in
          rw got (
            inr (
              new_task p q entry s.next_pid (current_pid s.ring),
              created_pid p q entry s.next_pid (current_pid s.ring),
              linked_task entry p q s (Pmm.alloc k).1
                  (two_frames s.pmm k (Pmm.alloc k).1 p q f g at at' taken taken'),
            ))
    ]
