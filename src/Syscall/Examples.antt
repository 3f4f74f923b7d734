-- ===== src/Syscall/Examples.antt =====
-- kernel/syscall.c: runs of the calls, and the theorems at them.
use epona_os.Base.{
  ◌+◌, ◌*◌, ◌/◌, ◌≤◌, ◌<◌, ◌≡◌, refl, inr, true, false, some, [], ◌∷◌, arith, upd, ◌==◌,
  if◌then◌else◌, codes,
}
use epona_os.Pipe.Fifo.{IsValid, contents}
use epona_os.Task.{running, Task, no_fd, no_signal, fd_free}
use epona_os.Term.{ts_ground, Default}
use epona_os.Syscall.{
  Disk, Kernel, returns, all_mapped, validate_user_ptr, copy_chars, copy_from_user,
  resolve_user_path,
}
use epona_os.Syscall.Pointers.{validate_user_ptr_lem}
use epona_os.Syscall.Listing.{write_listing, write_listing_lem}
use epona_os.Syscall.Files.{
  fd_type_pipe_r, fd_type_pipe_w, sys_write, sys_read, sys_close, read_keys,
}
use epona_os.Syscall.Tasks.{sys_dup2}
use epona_os.Syscall.Descriptors.{
  IsEnd, written, drained, doubled, closed_end, pipe_through, dup2_close,
}
use epona_os.Syscall.Confined.{memory_of, sys_read_lem}

-- Descriptors 3 and 4 are the ends of the pipe in slot 2.
abbrev shell : Task
shell = record {
  self = 0x5000;
  pid = 1;
  ppid = 0;
  state = running;
  rsp = 0;
  cr3 = 0;
  entry = 0;
  wake_tick = 0;
  exit_code = 0;
  fd = λ i.
      if i == 3
      then record { ptr = 3; kind = fd_type_pipe_r; used = true }
      else if i == 4
      then record { ptr = 3; kind = fd_type_pipe_w; used = true }
      else no_fd;
  signals = λ _. no_signal;
  kernel_stack_base = 0;
}

abbrev screen : Default
screen = record {
  display = record {
    ctx = record {
      state = ts_ground;
      params = λ _. 0;
      nparams = 0;
      param_active = false;
      fg = 15;
      bg = 0;
      saved_row = 0;
      saved_col = 0;
    };
    con = record { vga = λ _. 0xf20; row = 0; col = 0; color = 15; hw_cursor = 0 };
  };
  default_init = true;
}

abbrev disk : Disk
disk = record {
  got = λ node off size. 0;
  bytes = λ node off size. [];
  put = λ node off bytes nodes. (0, nodes);
}

abbrev kernel : Kernel
kernel = record {
  mem = λ i. if i == 0x10000 then b'a' else if i == 0x10001 then b'/' else 0;
  mapped = λ _. true;
  sched = record {
    ring = shell ∷ [];
    next_pid = 2;
    kernel_cr3 = 0x1000;
    pmm = record { bitmap = λ _. 0; total_frames = 16; used_frames = 0 };
    cr3 = 0x1000;
    rsp = 0;
    halted = false;
    closed = [];
  };
  pipes =
      λ _. record { buf = λ _. 0; head = 4095; count = 0; readers = 1; writers = 1; used = true };
  console = screen;
  typed = codes "ls";
  mounts = [];
  nodes = λ _. record { name = []; size = 0; flags = 0; children = 0; next = 0 };
  files = λ _. record { node = 0; offset = 0 };
  disk = disk;
  elf_ret_rip = 0;
}

accepts : validate_user_ptr 0x10ffe 4 kernel.mapped ≡ true
unfolding validate_user_ptr all_mapped
accepts = refl

accepts_target : validate_user_ptr 0x20000 4 kernel.mapped ≡ true
unfolding validate_user_ptr all_mapped
accepts_target = refl

reads_path : resolve_user_path 0x10000 256 kernel ≡ some (codes "/a/")
unfolding resolve_user_path copy_from_user copy_chars validate_user_ptr all_mapped
reads_path = refl

waits_for_line : memory_of (sys_read 0 0x20000 4 kernel) 0x20000 ≡ 0
unfolding sys_read validate_user_ptr all_mapped read_keys
waits_for_line = refl

validate_user_ptr_lem_example :
    (0x1000 ≤ 0x11000)
    × (0x11000 < 0x7fffffffff)
    × (kernel.mapped (0x11000 / 0x1000 * 0x1000) ≡ true)
validate_user_ptr_lem_example =
    validate_user_ptr_lem 0x10ffe 4 kernel.mapped 0x11000 (omega arith) (omega arith) accepts
      (omega arith) (omega arith)

write_listing_lem_example :
    ((write_listing 100 8 ((codes "notes", 12, 1) ∷ []) (λ _. 7)).0 < 8)
    × ((write_listing 100 8 ((codes "notes", 12, 1) ∷ []) (λ _. 7)).1
          (100 + (write_listing 100 8 ((codes "notes", 12, 1) ∷ []) (λ _. 7)).0)
        ≡ 0)
    × ((write_listing 100 8 ((codes "notes", 12, 1) ∷ []) (λ _. 7)).1 108 ≡ 7)
write_listing_lem_example =
    write_listing_lem 100 8 ((codes "notes", 12, 1) ∷ []) (λ _. 7) 108 (omega arith)
      (inr (omega arith))

shell_reads : IsEnd fd_type_pipe_r 2 3 shell
shell_reads = record { in_table = omega arith; in_use = refl; end_kind = refl; slot = refl }

shell_writes : IsEnd fd_type_pipe_w 2 4 shell
shell_writes = record { in_table = omega arith; in_use = refl; end_kind = refl; slot = refl }

pipe_through_example :
    (sys_write 4 0x10ffe 4 kernel ≡ returns 4 (written 2 0x10ffe 4 kernel))
    × (sys_read 3 0x20000 4 (written 2 0x10ffe 4 kernel)
        ≡ returns 4 (drained 2 0x10ffe 0x20000 4 kernel))
    × (contents ((drained 2 0x10ffe 0x20000 4 kernel).pipes 2) ≡ [])
    × IsValid ((drained 2 0x10ffe 0x20000 4 kernel).pipes 2)
pipe_through_example =
    pipe_through shell [] 2 4 3 0x10ffe 0x20000 4 kernel refl shell_writes shell_reads (omega arith)
      (omega arith) (record { head_in = omega arith; count_in = omega arith }) refl (omega arith)
      (omega arith) (omega arith) accepts accepts_target

dup2_close_example :
    (sys_dup2 4 7 kernel ≡ returns 7 (doubled 4 7 kernel))
    × (sys_close 4 (doubled 4 7 kernel) ≡ returns 0 (closed_end 2 4 (doubled 4 7 kernel)))
    × (((closed_end 2 4 (doubled 4 7 kernel)).pipes 2).writers ≡ 0)
    × IsEnd fd_type_pipe_w 2 7 (fd_free 4 (record shell { fd = upd shell.fd 7 (shell.fd 4) }))
dup2_close_example =
    dup2_close shell [] 2 4 7 kernel refl shell_writes (omega arith) (omega arith) refl

sys_read_lem_example : memory_of (sys_read 0 0x20000 4 kernel) 0x1ffff ≡ 0
sys_read_lem_example =
    sys_read_lem 0 0x20000 4 kernel 0x1ffff (λ node off size. omega arith) (ground arith)
