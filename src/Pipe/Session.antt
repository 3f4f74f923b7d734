-- ===== src/Pipe/Session.antt =====
-- kernel/syscall.c: any sequence of reads and writes on a pipe, against a bounded queue.
use epona_os.Base.{ℕ, ◌-◌, ◌≡◌, refl, List, [], ◌∷◌, ◌++◌, length}
use Prim.Native.Nat.{min}
use epona_os.Ring.{take, drop}
use epona_os.Pipe.{Pipe, pipe_buf_size, read, write}
use epona_os.Pipe.Fifo.{IsValid, contents, length-contents, read_lem, write_lem}

-- What the two ends of a pipe ask for.
pub data Call : Type 0 where
  put : List ℕ → Call
  get : ℕ → Call

-- What a call returns: a number of bytes taken, or the bytes read.
pub data Reply : Type 0 where
  taken : ℕ → Reply
  bytes : List ℕ → Reply

unfoldable pub run : List Call → Pipe → List Reply
run [] p = []
run (put src ∷ cs) p = taken (write src p).0 ∷ run cs (write src p).1
run (get n ∷ cs) p = bytes (read n p).0 ∷ run cs (read n p).1

-- The queue that a pipe promises to be.
unfoldable pub run_queue : List Call → List ℕ → List Reply
run_queue [] q = []
run_queue (put src ∷ cs) q =
    let room = pipe_buf_size - length q in
    taken (min room (length src)) ∷ run_queue cs (q ++ take room src)
run_queue (get n ∷ cs) q = bytes (take n q) ∷ run_queue cs (drop n q)

-- No sequence of reads and writes tells a valid pipe from the queue of the bytes that wait in it,
-- bounded by PIPE_BUF_SIZE.
pub run_refines : (cs : List Call) (p : Pipe) → IsValid p → run cs p ≡ run_queue cs (contents p)
unfolding run run_queue
run_refines [] p v = refl
run_refines (put src ∷ cs) p v =
    let w = write_lem src p v in
    rw (run_refines cs (write src p).1 w.2, w.0, w.1, length-contents p)
run_refines (get n ∷ cs) p v =
    let r = read_lem n p v in rw (run_refines cs (read n p).1 r.2, r.0, r.1)
