-- ===== src/Syscall/Dispatch.antt =====
-- kernel/syscall.c: `syscall_handler_c`, which picks the call by its number.
use epona_os.Base.{ℕ, ◌%◌, ◌^◌, ◌==◌, if◌then◌else◌}
use epona_os.User.Blocks.{sys_brk}
use epona_os.Syscall.{Kernel, Outcome, returns, fails}
use epona_os.Syscall.Files.{
  sys_write, sys_read, sys_open, sys_create, sys_close, sys_readdir, sys_unlink, sys_stat,
}
use epona_os.Syscall.Tasks.{
  Loader, sys_exit, sys_exec, sys_pipe, sys_fork, sys_wait, sys_getpid, sys_getppid, sys_kill,
  sys_signal, sys_dup2, sys_getcwd, sys_reboot,
}

-- The registers of the caller that the handler reads.
pub record Regs : Type 0 where
  pub rax : ℕ
  pub rdi : ℕ
  pub rsi : ℕ
  pub rdx : ℕ

-- `fuel` bounds the loops over paths; `at` and `copies` are the addresses that `kmalloc` has for a `file_t`, the
-- second one for each descriptor that a fork copies. A descriptor is an `int`.
pub syscall_handler_c : (elf_load : Loader) (fuel at : ℕ) (copies : ℕ → ℕ) → Regs → Kernel → Outcome
syscall_handler_c elf_load fuel at copies r k =
    let rdi = r.rdi in
    let rsi = r.rsi in
    let rdx = r.rdx in
    let fd = rdi % 2 ^ 32 in
    if r.rax == 0
    then sys_exit rdi k
    else if r.rax == 1
    then sys_write fd rsi rdx k
    else if r.rax == 2
    then sys_open fuel at rdi k
    else if r.rax == 3
    then sys_read fd rsi rdx k
    else if r.rax == 4
    then sys_close fd k
    else if r.rax == 5
    then sys_readdir fuel rdi rsi rdx k
    else if r.rax == 6
    then sys_exec elf_load rdi k
    else if r.rax == 7
    then sys_create fuel at rdi k
    else if r.rax == 8
    then sys_unlink fuel rdi k
    else if r.rax == 9
    then sys_stat fuel rdi rsi rdx k
    else if r.rax == 10
    then sys_pipe rdi k
    else if r.rax == 11
    then sys_fork copies k
    else if r.rax == 12
    then sys_wait k
    else if r.rax == 13
    then sys_getpid k
    else if r.rax == 14
    then sys_getppid k
    else if r.rax == 15
    then sys_kill rdi rsi k
    else if r.rax == 16
    then sys_signal rdi rsi k
    else if r.rax == 17
    then returns (sys_brk rdi) k
    else if r.rax == 18
    then sys_dup2 rdi rsi k
    else if r.rax == 19
    then returns 0 k
    else if r.rax == 20
    then sys_getcwd rdi rsi k
    else if r.rax == 21
    then sys_reboot rdi k
    else fails k
