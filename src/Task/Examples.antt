-- ===== src/Task/Examples.antt =====
-- kernel/scheduler.c: the theorems on the file descriptors at a concrete task.
use epona_os.Base.{◌≡◌, refl, true, some, [], ◌∷◌, ◌==◌, if◌then◌else◌}
use epona_os.Task.{
  Task, ready, no_fd, no_signal, fd_alloc_loop, fd_alloc, fd_close_loop, fd_close_all,
}

-- Descriptor 3 is a file, 4 the read end of a pipe.
abbrev shell : Task
shell = record {
  self = 0x200000;
  pid = 7;
  ppid = 1;
  state = ready;
  rsp = 0;
  cr3 = 0;
  entry = 0;
  wake_tick = 0;
  exit_code = 0;
  fd = λ i.
      if i == 3
      then record { ptr = 0x5000; kind = 1; used = true }
      else if i == 4
      then record { ptr = 2; kind = 2; used = true }
      else no_fd;
  signals = λ _. no_signal;
  kernel_stack_base = 0x201000;
}

opened : (fd_alloc 0x6000 1 shell).0 ≡ some 5
unfolding fd_alloc fd_alloc_loop
opened = refl

closed : (fd_close_all shell).0 ≡ 0x5000 ∷ []
unfolding fd_close_all fd_close_loop
closed = refl
