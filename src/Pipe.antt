-- ===== src/Pipe.antt =====
-- kernel/syscall.c: the pipes, MAX_PIPES ring buffers of PIPE_BUF_SIZE bytes.
-- The fields `readers` and `writers` are the bit patterns of an `int`.
use epona_os.Base.{
  ℕ, zero, suc, ◌+◌, ◌-◌, ◌*◌, ◌/◌, ◌%◌, ◌^◌, ◌≤◌, ◌<◌, bit_and, bit_or, bit_xor, ◌≡◌, refl, sym,
  ap, ◌∙◌, ◌≢◌, ◌↔◌, ◌⊎◌, inl, inr, Bool, true, false, ◌&&◌, ◌||◌, not, Option, none, some, List,
  [], ◌∷◌, ◌++◌, arith, Arr, upd, length, length-append, ltb, leb, ◌==◌, ==_iff, if◌then◌else◌,
  Bool-cases, Option-cases, ltb→lt, &&_split, all_below, all_below_sound,
}
pub mod Fifo
pub mod Session
pub mod Table
mod Examples

abbrev pub max_pipes : ℕ
max_pipes = 16

abbrev pub pipe_buf_size : ℕ
pipe_buf_size = 4096

-- `pipe_t`
pub record Pipe : Type 0 where
  pub buf : Arr
  pub head : ℕ
  pub count : ℕ
  pub readers : ℕ
  pub writers : ℕ
  pub used : Bool

-- `pipe_alloc`: the index of the slot that is taken, if any, and the table. The buffer keeps what
-- was in it.
pub alloc_loop : ℕ → ℕ → (ℕ → Pipe) → Option ℕ × (ℕ → Pipe)
alloc_loop zero i pipes = (none, pipes)
alloc_loop (suc n) i pipes =
    let rest = alloc_loop n (i + 1) pipes in
    let slot : Pipe = pipes i in
    if not slot.used
    then (
      some i,
      upd pipes i (record slot { used = true; head = 0; count = 0; readers = 1; writers = 1 }),
    )
    else rest

pub alloc : (ℕ → Pipe) → Option ℕ × (ℕ → Pipe)
alloc pipes = alloc_loop max_pipes 0 pipes

-- `pipe_read`: the bytes that are put into the caller's buffer, and the pipe. The first argument
-- is how many more bytes the caller wants.
pub read : ℕ → Pipe → List ℕ × Pipe
read zero p = ([], p)
read (suc n) p =
    let tail : ℕ = (p.head + pipe_buf_size - p.count) % pipe_buf_size in
    let rest : List ℕ × Pipe = read n (record p { count = p.count - 1 }) in
    if ltb 0 p.count then (p.buf tail ∷ rest.0, rest.1) else ([], p)

-- `pipe_write`: how many bytes are taken, and the pipe. `n` is the number taken so far.
pub write_loop : List ℕ → ℕ → Pipe → ℕ × Pipe
write_loop [] n p = (n, p)
write_loop (b ∷ bs) n p =
    let rest = write_loop bs (n + 1) (record p {
      buf = upd p.buf p.head b;
      head = (p.head + 1) % pipe_buf_size;
      count = p.count + 1;
    }) in
    if ltb p.count pipe_buf_size then rest else (n, p)

pub write : List ℕ → Pipe → ℕ × Pipe
write src p = write_loop src 0 p
