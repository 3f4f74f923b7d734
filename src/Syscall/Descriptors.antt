-- ===== src/Syscall/Descriptors.antt =====
-- kernel/syscall.c: pipes behind descriptors.
use epona_os.Base.{
  ℕ, ◌-◌, ◌%◌, ◌^◌, ◌≤◌, ◌<◌, ◌≡◌, refl, sym, ap, ◌∙◌, ◌≢◌, true, false, ◌&&◌, ◌||◌, not, Option,
  none, some, List, [], ◌∷◌, ◌++◌, arith, upd, upd_self, upd_ne, subst, length, leb, ◌==◌, bytes_at,
  length-bytes_at, write_bytes,
}
use epona_os.Ring.{take, drop}
use epona_os.Pipe
use epona_os.Pipe.{Pipe, pipe_buf_size}
use epona_os.Pipe.Fifo.{
  IsValid, contents, length-contents, contents-nil, read_lem, write_lem, take_all, drop_all,
}
use epona_os.Task.{Task, FdEntry, task_max_fd, fd_get, fd_free, no_fd}
use epona_os.Sched.{map_current}
use epona_os.Syscall.{Kernel, returns, fails, validate_user_ptr}
use epona_os.Syscall.Files.{
  positive, fd_stdin, fd_stdout, fd_stderr, current, with_current, fd_type_pipe_r, fd_type_pipe_w,
  pipe_ptr, pipe_slot, write_pipe, write_fd, sys_write, read_pipe, read_fd, sys_read, drop_end,
  sys_close,
}
use epona_os.Syscall.Tasks.{sys_dup2}

-- The descriptor `fd` of the task is an end of the pipe in slot `p`.
pub record IsEnd (kind p fd : ℕ) (t : Task) : Type 0 where
  pub in_table : fd < task_max_fd
  pub in_use : (t.fd fd).used ≡ true
  pub end_kind : (t.fd fd).kind ≡ kind
  pub slot : (t.fd fd).ptr ≡ pipe_ptr p

write_pipe_lem :
    (p addr count : ℕ) (k : Kernel)
    → IsValid (k.pipes p)
    → (k.pipes p).count ≡ 0
    → (k.pipes p).readers ≢ 0
    → validate_user_ptr addr count k.mapped ≡ true
    → count ≤ pipe_buf_size
    → write_pipe p addr count k
      ≡ returns count (record k {
        pipes = upd k.pipes p (Pipe.write (bytes_at k.mem addr count) (k.pipes p)).1;
      })
unfolding write_pipe
write_pipe_lem p addr count k v empty readers ok fits =
    let pipe : Pipe = k.pipes p in
    let bytes : List ℕ = bytes_at k.mem addr count in
    let not_full : (pipe.count == pipe_buf_size && positive pipe.readers) ≡ false =
      ground (arith, empty) in
    let read_by : (pipe.readers == 0) ≡ false = ground (arith, readers) in
    let n : (Pipe.write bytes pipe).0 ≡ count =
      (write_lem bytes pipe v).0 ∙ omega (arith, empty, length-bytes_at k.mem addr count) in
    let done : Kernel = record k { pipes = upd k.pipes p (Pipe.write bytes pipe).1 } in
    rw (ok, not_full, read_by) (ap (λ m. returns m done) n)

take-length : (xs : List ℕ) → take (length xs) xs ≡ xs
take-length [] = refl
take-length (x ∷ xs) = ap (λ l. x ∷ l) (take-length xs)

read_pipe_lem :
    (p addr count : ℕ) (src : List ℕ) (k : Kernel)
    → IsValid (k.pipes p)
    → contents (k.pipes p) ≡ src
    → count ≡ length src
    → 0 < count
    → validate_user_ptr addr count k.mapped ≡ true
    → read_pipe p addr count k
      ≡ returns count (record k {
        pipes = upd k.pipes p (Pipe.read count (k.pipes p)).1;
        mem = write_bytes src addr k.mem;
      })
unfolding read_pipe
read_pipe_lem p addr count src k v holds n pos ok =
    let pipe : Pipe = k.pipes p in
    let waiting : pipe.count ≡ count =
      sym (length-contents pipe) ∙ ap (λ l. length l) holds ∙ sym n in
    let some_there : (pipe.count == 0 && positive pipe.writers) ≡ false = ground (arith, waiting) in
    let not_empty : (pipe.count == 0) ≡ false = ground (arith, waiting) in
    let bytes : (Pipe.read count pipe).0 ≡ src =
      (read_lem count pipe v).0
      ∙ ap (take count) holds
      ∙ ap (λ m. take m src) n
      ∙ take-length src in
    let done = λ (l : List ℕ). returns (length l) (record k {
      pipes = upd k.pipes p (Pipe.read count pipe).1;
      mem = write_bytes l addr k.mem;
    }) in
    rw (ok, some_there, not_empty)
      (ap done bytes
        ∙ ap
            (λ m. returns m (record k {
              pipes = upd k.pipes p (Pipe.read count pipe).1;
              mem = write_bytes src addr k.mem;
            }))
            (sym n))

-- What counts is the entry.
same_entry-IsEnd :
    (kind p fd : ℕ) (t u : Task) → u.fd fd ≡ t.fd fd → IsEnd kind p fd t → IsEnd kind p fd u
same_entry-IsEnd kind p fd t u same e = record {
  in_table = e.in_table;
  in_use = ap (λ (d : FdEntry). d.used) same ∙ e.in_use;
  end_kind = ap (λ (d : FdEntry). d.kind) same ∙ e.end_kind;
  slot = ap (λ (d : FdEntry). d.ptr) same ∙ e.slot;
}

fd_get-IsEnd : (kind p fd : ℕ) (t : Task) → IsEnd kind p fd t → fd_get fd t ≡ pipe_ptr p
unfolding fd_get
fd_get-IsEnd kind p fd t e =
    let shown : (leb task_max_fd fd || not (t.fd fd).used) ≡ false =
      ground (arith, e.in_table, e.in_use) in
    rw shown e.slot

-- Writing and reading through descriptors is writing and reading the pipe.
write_fd-pipe :
    (cur : Task) (p fd addr count : ℕ) (k : Kernel)
    → IsEnd fd_type_pipe_w p fd cur
    → write_fd cur fd addr count k ≡ write_pipe p addr count k
unfolding write_fd
write_fd-pipe cur p fd addr count k e =
    let open_here : fd_get fd cur ≡ pipe_ptr p = fd_get-IsEnd fd_type_pipe_w p fd cur e in
    let some_obj : (fd_get fd cur == 0) ≡ false = ground (arith, open_here) in
    let is_write : ((cur.fd fd).kind == fd_type_pipe_w) ≡ true = ground (arith, e.end_kind) in
    let slot : pipe_slot (fd_get fd cur) ≡ p = omega (arith, open_here) in
    rw (some_obj, is_write) (ap (λ s. write_pipe s addr count k) slot)

read_fd-pipe :
    (cur : Task) (p fd addr count : ℕ) (k : Kernel)
    → IsEnd fd_type_pipe_r p fd cur
    → read_fd cur fd addr count k ≡ read_pipe p addr count k
unfolding read_fd
read_fd-pipe cur p fd addr count k e =
    let open_here : fd_get fd cur ≡ pipe_ptr p = fd_get-IsEnd fd_type_pipe_r p fd cur e in
    let some_obj : (fd_get fd cur == 0) ≡ false = ground (arith, open_here) in
    let is_read : ((cur.fd fd).kind == fd_type_pipe_r) ≡ true = ground (arith, e.end_kind) in
    let slot : pipe_slot (fd_get fd cur) ≡ p = omega (arith, open_here) in
    rw (some_obj, is_read) (ap (λ s. read_pipe s addr count k) slot)

-- The kernel after the bytes have gone into the pipe, and after they have come out again.
abbrev pub written : (p src count : ℕ) → Kernel → Kernel
written p src count k = record k {
  pipes = upd k.pipes p (Pipe.write (bytes_at k.mem src count) (k.pipes p)).1;
}

abbrev pub drained : (p src dst count : ℕ) → Kernel → Kernel
drained p src dst count k = record (written p src count k) {
  pipes = upd (written p src count k).pipes p (Pipe.read count ((written p src count k).pipes p)).1;
  mem = write_bytes (bytes_at k.mem src count) dst k.mem;
}

current_first :
    (cur : Task) (others : List Task) (k : Kernel)
    → k.sched.ring ≡ cur ∷ others
    → current k ≡ some cur
current_first cur others k first = rw first refl

sys_write-pipe :
    (cur : Task) (others : List Task) (p fd addr count : ℕ) (k : Kernel)
    → k.sched.ring ≡ cur ∷ others
    → IsEnd fd_type_pipe_w p fd cur
    → 3 ≤ fd
    → sys_write fd addr count k ≡ write_pipe p addr count k
unfolding sys_write
sys_write-pipe cur others p fd addr count k first e le =
    let file : (fd == fd_stdout || fd == fd_stderr) ≡ false = ground (arith, le) in
    rw file (
      ap (λ (c : Option Task). elim c [ none ↦ fails k | some cur ↦ write_fd cur fd addr count k ])
        (current_first cur others k first)
      ∙ write_fd-pipe cur p fd addr count k e)

sys_read-pipe :
    (cur : Task) (others : List Task) (p fd addr count : ℕ) (k : Kernel)
    → k.sched.ring ≡ cur ∷ others
    → IsEnd fd_type_pipe_r p fd cur
    → 3 ≤ fd
    → sys_read fd addr count k ≡ read_pipe p addr count k
unfolding sys_read
sys_read-pipe cur others p fd addr count k first e le =
    let file : (fd == fd_stdin) ≡ false = ground (arith, le) in
    rw file (
      ap (λ (c : Option Task). elim c [ none ↦ fails k | some cur ↦ read_fd cur fd addr count k ])
        (current_first cur others k first)
      ∙ read_fd-pipe cur p fd addr count k e)

-- When the current task holds both ends of a valid, empty pipe that counts a reader, at two descriptors from
-- 3 on, writes `count` bytes, at least one and at most as many as the pipe holds, from memory that is
-- mapped, and then reads as many to memory that is mapped, both calls return `count`, the bytes that were
-- written stand at the second address, and the pipe is empty and valid again.
pub pipe_through :
    (cur : Task) (others : List Task) (p wfd rfd src dst count : ℕ) (k : Kernel)
    → k.sched.ring ≡ cur ∷ others
    → IsEnd fd_type_pipe_w p wfd cur
    → IsEnd fd_type_pipe_r p rfd cur
    → 3 ≤ wfd
    → 3 ≤ rfd
    → IsValid (k.pipes p)
    → (k.pipes p).count ≡ 0
    → (k.pipes p).readers ≢ 0
    → 0 < count
    → count ≤ pipe_buf_size
    → validate_user_ptr src count k.mapped ≡ true
    → validate_user_ptr dst count k.mapped ≡ true
    → (sys_write wfd src count k ≡ returns count (written p src count k))
      × (sys_read rfd dst count (written p src count k) ≡ returns count (drained p src dst count k))
      × (contents ((drained p src dst count k).pipes p) ≡ [])
      × IsValid ((drained p src dst count k).pipes p)
pipe_through cur others p wfd rfd src dst count k first w r le le' v empty readers pos fits ok ok' =
    let bytes : List ℕ = bytes_at k.mem src count in
    let pipe : Pipe = k.pipes p in
    let after : Kernel = written p src count k in
    let put = write_lem bytes pipe v in
    let now : after.pipes p ≡ (Pipe.write bytes pipe).1 =
      upd_self k.pipes p (Pipe.write bytes pipe).1 in
    let valid : IsValid (after.pipes p) = subst IsValid (sym now) put.2 in
    let n : count ≡ length bytes = sym (length-bytes_at k.mem src count) in
    let all : take (pipe_buf_size - pipe.count) bytes ≡ bytes =
      take_all (pipe_buf_size - pipe.count) bytes (omega (arith, empty, n, fits)) in
    let holds : contents (after.pipes p) ≡ bytes =
      ap contents now
      ∙ put.1
      ∙ ap (λ l. l ++ take (pipe_buf_size - pipe.count) bytes) (contents-nil pipe empty)
      ∙ all in
    let got = read_lem count (after.pipes p) valid in
    let end : (drained p src dst count k).pipes p ≡ (Pipe.read count (after.pipes p)).1 =
      upd_self after.pipes p (Pipe.read count (after.pipes p)).1 in
    (
      sys_write-pipe cur others p wfd src count k first w le
          ∙ write_pipe_lem p src count k v empty readers ok fits,
      sys_read-pipe cur others p rfd dst count after first r le'
          ∙ read_pipe_lem p dst count bytes after valid holds n pos ok',
      ap contents end ∙ got.1 ∙ ap (drop count) holds ∙ drop_all count bytes (omega (arith, n)),
      subst IsValid (sym end) got.2,
    )

-- What SYS_DUP2 and SYS_CLOSE leave.
abbrev pub doubled : (old new : ℕ) → Kernel → Kernel
doubled old new k = with_current (λ (t : Task). record t { fd = upd t.fd new (t.fd old) }) k

abbrev pub closed_end : (p fd : ℕ) → Kernel → Kernel
closed_end p fd k = record (with_current (fd_free fd) k) {
  pipes = upd k.pipes p (drop_end fd_type_pipe_w (k.pipes p));
}

sys_close-pipe :
    (cur : Task) (others : List Task) (p fd : ℕ) (k : Kernel)
    → k.sched.ring ≡ cur ∷ others
    → IsEnd fd_type_pipe_w p fd cur
    → sys_close fd k ≡ returns 0 (closed_end p fd k)
unfolding sys_close
sys_close-pipe cur others p fd k first e =
    let shown : (leb task_max_fd fd || not (cur.fd fd).used) ≡ false =
      ground (arith, e.in_table, e.in_use) in
    let slot : pipe_slot (cur.fd fd).ptr ≡ p = omega (arith, e.slot) in
    rw (current_first cur others k first, sys_close, shown, e.end_kind, slot) refl

-- The last writer goes.
drop_end-writers : (q : Pipe) → q.writers ≡ 1 → (drop_end fd_type_pipe_w q).writers ≡ 0
unfolding drop_end
drop_end-writers q one = ground (arith, one)

-- Another descriptor stays an end.
fd_free-IsEnd :
    (kind p other fd : ℕ) (t : Task)
    → IsEnd kind p fd t
    → other ≢ fd
    → other < task_max_fd
    → IsEnd kind p fd (fd_free other t)
unfolding fd_free
fd_free-IsEnd kind p other fd t e ne lt =
    let frees : leb task_max_fd other ≡ false = ground (arith, lt) in
    let stays : upd t.fd other no_fd fd ≡ t.fd fd = upd_ne t.fd other fd no_fd ne in
    rw frees (same_entry-IsEnd kind p fd t (record t { fd = upd t.fd other no_fd }) stays e)

-- After `SYS_DUP2` has made a second descriptor for the only write end of a pipe, `SYS_CLOSE` of the first
-- one leaves the pipe without a writer, though the second one is still in use.
pub dup2_close :
    (cur : Task) (others : List Task) (p old new : ℕ) (k : Kernel)
    → k.sched.ring ≡ cur ∷ others
    → IsEnd fd_type_pipe_w p old cur
    → new < task_max_fd
    → new ≢ old
    → (k.pipes p).writers ≡ 1
    → (sys_dup2 old new k ≡ returns new (doubled old new k))
      × (sys_close old (doubled old new k) ≡ returns 0 (closed_end p old (doubled old new k)))
      × (((closed_end p old (doubled old new k)).pipes p).writers ≡ 0)
      × IsEnd fd_type_pipe_w p new (fd_free old (record cur { fd = upd cur.fd new (cur.fd old) }))
unfolding sys_dup2
dup2_close cur others p old new k first e lt ne one =
    let cur' : Task = record cur { fd = upd cur.fd new (cur.fd old) } in
    let old32 : old % 2 ^ 32 ≡ old = omega (arith, e.in_table) in
    let new32 : new % 2 ^ 32 ≡ new = omega (arith, lt) in
    let room : leb task_max_fd new ≡ false = ground (arith, lt) in
    let in_new : cur'.fd new ≡ cur.fd old = upd_self cur.fd new (cur.fd old) in
    let in_old : cur'.fd old ≡ cur.fd old = upd_ne cur.fd new old (cur.fd old) ne in
    let shown : (leb task_max_fd old || not (cur.fd old).used) ≡ false =
      ground (arith, e.in_table, e.in_use) in
    let ring : (doubled old new k).sched.ring ≡ cur' ∷ others =
      ap (map_current (λ (t : Task). record t { fd = upd t.fd new (t.fd old) })) first in
    let e' : IsEnd fd_type_pipe_w p old cur' =
      same_entry-IsEnd fd_type_pipe_w p old cur cur' in_old e in
    let e'' : IsEnd fd_type_pipe_w p new cur' = record {
      in_table = lt;
      in_use = ap (λ (d : FdEntry). d.used) in_new ∙ e.in_use;
      end_kind = ap (λ (d : FdEntry). d.kind) in_new ∙ e.end_kind;
      slot = ap (λ (d : FdEntry). d.ptr) in_new ∙ e.slot;
    } in
    (
      rw (current_first cur others k first, sys_dup2, old32, new32, shown, room) refl,
      sys_close-pipe cur' others p old (doubled old new k) ring e',
      ap (λ (q : Pipe). q.writers) (upd_self k.pipes p (drop_end fd_type_pipe_w (k.pipes p)))
          ∙ drop_end-writers (k.pipes p) one,
      fd_free-IsEnd fd_type_pipe_w p old new cur' e'' (λ h. ne (sym h)) e.in_table,
    )
