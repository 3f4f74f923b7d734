-- ===== src/Pipe/Examples.antt =====
-- kernel/syscall.c: runs of the pipes, and the theorems at them.
use epona_os.Base.{ℕ, ◌≡◌, refl, true, false, some, List, [], ◌∷◌, arith, ltb, ◌==◌, if◌then◌else◌}
use epona_os.Ring.{window}
use epona_os.Pipe.{Pipe, alloc_loop, alloc, read, write_loop, write}
use epona_os.Pipe.Fifo.{IsValid, contents}
use epona_os.Pipe.Session.{Call, put, get, taken, bytes, run, run_queue, run_refines}

-- Two bytes wait, one on each side of the end of the buffer.
abbrev wrapped : Pipe
wrapped = record {
  buf = λ i. if i == 4095 then 7 else if i == 0 then 8 else 0;
  head = 1;
  count = 2;
  readers = 1;
  writers = 1;
  used = true;
}

abbrev empty : Pipe
empty = record wrapped { head = 4094; count = 0 }

wrapped-IsValid : IsValid wrapped
wrapped-IsValid = record { head_in = omega arith; count_in = omega arith }

empty-IsValid : IsValid empty
empty-IsValid = record { head_in = omega arith; count_in = omega arith }

contents-wrapped : contents wrapped ≡ 7 ∷ 8 ∷ []
unfolding contents window
contents-wrapped = refl

abbrev script : List Call
script = put (1 ∷ 2 ∷ 3 ∷ []) ∷ get 2 ∷ put (4 ∷ []) ∷ get 9 ∷ get 1 ∷ []

session_runs :
    run script empty ≡ taken 3 ∷ bytes (1 ∷ 2 ∷ []) ∷ taken 1 ∷ bytes (3 ∷ 4 ∷ []) ∷ bytes [] ∷ []
unfolding run read write write_loop
session_runs = refl

run_refines_example : run script empty ≡ run_queue script (contents empty)
run_refines_example = run_refines script empty empty-IsValid

-- Slots 0 and 1 are in use.
abbrev table : ℕ → Pipe
table i = if ltb i 2 then wrapped else record wrapped { used = false }

alloc_runs : (alloc table).0 ≡ some 2
unfolding alloc alloc_loop
alloc_runs = refl
