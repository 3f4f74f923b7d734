-- ===== src/Syscall/Confined.antt =====
-- kernel/syscall.c: where SYS_READ writes.
use epona_os.Base.{
  ℕ, zero, suc, ◌+◌, ◌-◌, ◌%◌, ◌^◌, ◌≤◌, ◌≡◌, refl, inl, inr, Bool, true, false, ◌&&◌, ◌||◌, not,
  Option, none, some, List, [], ◌∷◌, arith, Arr, subst, length, ltb, leb, ◌==◌, if◌then◌else◌,
  Bool-cases, if_elim, Option-cases, ltb→lt, write_bytes, write_bytes-out,
}
use epona_os.Pipe
use epona_os.Pipe.Fifo.{length-read}
use epona_os.Task.{Task, fd_type_file, fd_get}
use epona_os.Vfs.Calls.{File}
use epona_os.Syscall.{Kernel, Outcome, returns, yields, leaves, jumps, validate_user_ptr}
use epona_os.Syscall.Files.{
  positive, fd_stdin, fd_type_pipe_r, pipe_slot, current, read_keys, read_pipe, read_from_file,
  read_fd, sys_read,
}

-- The memory when a call has ended or lets others run.
abbrev pub memory_of : Outcome → Arr
memory_of (returns n k) = k.mem
memory_of (yields k) = k.mem
memory_of (leaves k) = k.mem
memory_of (jumps entry stack_top pml4 k) = k.mem

-- The address `j` lies in a buffer that `validate_user_ptr` accepts.
abbrev pub in_buffer : (addr count : ℕ) (mapped : ℕ → Bool) (j : ℕ) → Bool
in_buffer addr count mapped j =
    validate_user_ptr addr count mapped && (leb addr j && ltb j (addr + count))

write_bytes-in_buffer :
    (bs : List ℕ) (addr count : ℕ) (mapped : ℕ → Bool) (mem : Arr) (j : ℕ)
    → validate_user_ptr addr count mapped ≡ true
    → length bs ≤ count
    → in_buffer addr count mapped j ≡ false
    → write_bytes bs addr mem j ≡ mem j
write_bytes-in_buffer bs addr count mapped mem j ok le out = elim (Bool-cases (ltb j addr)) [
  | inl before ↦ write_bytes-out bs addr mem j (inl (ltb→lt j addr before))
  | inr behind ↦
      let far : addr + count ≤ j = ground (arith, ok, out, behind) in
      write_bytes-out bs addr mem j (inr (omega arith))
]

-- How many characters.
abbrev count_read : Option (List ℕ × List ℕ) → ℕ
count_read none = 0
count_read (some (cs, left)) = length cs

count_read-read_keys : (room : ℕ) (typed : List ℕ) → count_read (read_keys room typed) ≤ room
unfolding read_keys
count_read-read_keys zero typed = omega arith
count_read-read_keys (suc room) [] = omega arith
count_read-read_keys (suc room) (c ∷ typed) =
    let P : Option (List ℕ × List ℕ) → Type 0 = λ r. count_read r ≤ suc room in
    if_elim P (c == 0 || ltb 255 c) (λ e. count_read-read_keys (suc room) typed)
      (λ e.
        if_elim P (c == b'\n') (λ e1. omega arith)
          (λ e1. elim (Option-cases (read_keys room typed)) [
            | inl waits ↦ rw (waits, read_keys) (omega arith)
            | inr (found, ready) ↦
                let fits : length found.0 ≤ room =
                  subst (λ r. count_read r ≤ room) ready (count_read-read_keys room typed) in
                rw (ready, read_keys) (omega (arith, fits))
          ]))

accepted :
    (addr count : ℕ) (k : Kernel)
    → not (validate_user_ptr addr count k.mapped) ≡ false
    → validate_user_ptr addr count k.mapped ≡ true
accepted addr count k e = ground (arith, e)

read_pipe_lem :
    (p addr count : ℕ) (k : Kernel) (j : ℕ)
    → in_buffer addr count k.mapped j ≡ false
    → memory_of (read_pipe p addr count k) j ≡ k.mem j
unfolding read_pipe
read_pipe_lem p addr count k j out =
    let P : Outcome → Type 0 = λ o. memory_of o j ≡ k.mem j in
    if_elim P (not (validate_user_ptr addr count k.mapped)) (λ e. refl)
      (λ e.
        if_elim P ((k.pipes p).count == 0 && positive (k.pipes p).writers) (λ e1. refl)
          (λ e1.
            if_elim P ((k.pipes p).count == 0) (λ e2. refl)
              (λ e2.
                write_bytes-in_buffer (Pipe.read count (k.pipes p)).0 addr count k.mapped k.mem j
                  (accepted addr count k e) (length-read count (k.pipes p)) out)))

read_from_file_lem :
    (f addr count : ℕ) (k : Kernel) (j : ℕ)
    → ((node offset size : ℕ) → length (k.disk.bytes node offset size) ≤ size)
    → in_buffer addr count k.mapped j ≡ false
    → memory_of (read_from_file f addr count k) j ≡ k.mem j
unfolding read_from_file
read_from_file_lem f addr count k j short out =
    let file : File = k.files f in
    let remain : ℕ = ((k.nodes file.node).size + 2 ^ 64 - file.offset) % 2 ^ 64 in
    let wanted : ℕ = if ltb remain count then remain else count in
    let fits : wanted ≤ count = ground arith in
    let P : Outcome → Type 0 = λ o. memory_of o j ≡ k.mem j in
    if_elim P (not (validate_user_ptr addr count k.mapped)) (λ e. refl)
      (λ e.
        write_bytes-in_buffer (k.disk.bytes file.node file.offset wanted) addr count k.mapped k.mem
          j (accepted addr count k e) (omega (arith, fits, short file.node file.offset wanted)) out)

read_fd_lem :
    (cur : Task) (fd addr count : ℕ) (k : Kernel) (j : ℕ)
    → ((node offset size : ℕ) → length (k.disk.bytes node offset size) ≤ size)
    → in_buffer addr count k.mapped j ≡ false
    → memory_of (read_fd cur fd addr count k) j ≡ k.mem j
unfolding read_fd
read_fd_lem cur fd addr count k j short out =
    let P : Outcome → Type 0 = λ o. memory_of o j ≡ k.mem j in
    let obj : ℕ = fd_get fd cur in
    if_elim P (obj == 0) (λ e. refl)
      (λ e.
        if_elim P ((cur.fd fd).kind == fd_type_pipe_r)
          (λ e1. read_pipe_lem (pipe_slot obj) addr count k j out)
          (λ e1.
            if_elim P ((cur.fd fd).kind == fd_type_file)
              (λ e2. read_from_file_lem obj addr count k j short out) (λ e2. refl)))

-- SYS_READ, from the terminal, a pipe or a file, whether it fails, waits or returns, changes no byte of memory
-- outside of the caller's buffer, and none at all unless `validate_user_ptr` accepts the buffer; provided that a file
-- system reads at most as many bytes as it is asked for.
pub sys_read_lem :
    (fd addr count : ℕ) (k : Kernel) (j : ℕ)
    → ((node offset size : ℕ) → length (k.disk.bytes node offset size) ≤ size)
    → in_buffer addr count k.mapped j ≡ false
    → memory_of (sys_read fd addr count k) j ≡ k.mem j
unfolding sys_read
sys_read_lem fd addr count k j short out =
    let P : Outcome → Type 0 = λ o. memory_of o j ≡ k.mem j in
    if_elim P (fd == fd_stdin)
      (λ e.
        if_elim P (not (validate_user_ptr addr count k.mapped)) (λ e1. refl)
          (λ e1. elim (Option-cases (read_keys count k.typed)) [
            | inl waits ↦ rw (waits, sys_read) refl
            | inr (found, ready) ↦
                let fits : length found.0 ≤ count =
                  subst (λ r. count_read r ≤ count) ready (count_read-read_keys count k.typed) in
                rw (ready, sys_read)
                  (write_bytes-in_buffer found.0 addr count k.mapped k.mem j
                    (accepted addr count k e1) fits out)
          ]))
      (λ e. elim (Option-cases (current k)) [
        | inl idle ↦ rw (idle, sys_read) refl
        | inr (cur, running) ↦ rw (running, sys_read) (read_fd_lem cur fd addr count k j short out)
      ])
