-- ===== src/Lib.antt =====
-- EponaOS: a model of the kernel's core, with proofs. EponaOS is a small x86-64 kernel in C with a
-- frame allocator, a task scheduler, drivers, and programs in user mode that enter it by system calls.
--
-- The parts, and the files that model them:
-- - mm/pmm.c, the physical frame allocator: `Pmm` (its functions without the prefix `pmm_`). The bitmap
--   is a function from the index to the byte; the BIOS memory map is the argument of `Pmm.init`.
-- - mm/heap.c: `Heap` (`heap_init` is `init`). The headers are a function from their addresses; the heap grows
--   by frames of the frame allocator. The search takes fuel, one more than the blocks. `Heap.Bytes` has
--   `kcalloc` and `krealloc`, with the memory between the headers as an array.
-- - kernel/syscall.c, the pipes: `Pipe` (`pipe_alloc`, `pipe_read`, `pipe_write`).
-- - drivers/keyboard.c: `Keyboard`. `irq` takes what the two ports deliver; `scancode`, `extended_key`
--   and `plain_key` are the parts of `keyboard_irq`.
-- - include/scheduler.h and the descriptor helpers of kernel/scheduler.c: `Task`.
-- - kernel/scheduler.c: `Sched`. It uses the frame allocator for the tasks' memory, and is called by the
--   timer interrupt (`tick`) and by the tasks (`schedule`, `sleep`).
-- - drivers/gpu.c, the console in VGA text mode: `Console` (its functions without the prefix `gpu_`).
-- - kernel/term.c, the VT100 interpreter: `Term` (its functions without the prefix `term_ctx_`). It draws on
--   the console; a `Display` is a context with the console.
-- - drivers/mouse.c: `Mouse`, with what the two ports deliver as arguments.
-- - lib/string.c: `Memory`; the static pointer of `strtok` is an argument and a result. The loops over texts take
--   fuel; one more than the length is enough.
-- - net/net.c: `Net`. The static variables are the record `Net.State.Net`; the frames handed to the card,
--   `rtl8139_send`, are collected in its field `sent`, and those that the card delivers are the arguments of
--   `Net.Receive.poll`. `Net.Wire` lays out the headers, `Net.Tcp` is the connection (`tcp_http_start` is
--   `start`, the end of `handle_tcp` is `segment`, `http_store_body` is `store_body`), `Net.Dns` and `Net.Dhcp`
--   are the two protocols under UDP, and `Net.Receive` has `net_handle_packet` and the entry points
--   (`net_init` is `init`, `net_http_fetch` is `http_fetch`).
-- - fs/vfs.c: `Vfs`, with the calls in `Vfs.Calls` (`vfs_open` is `open_file`, the others likewise). A file
--   system is a record of operations, as in the code, and `kmalloc` for a `file_t` is an argument. The loops
--   over directories take fuel, one more than the entries before the one that is found.
-- - mm/paging.c: `Paging` (its functions without the prefix `paging_`), on the frame allocator. The tables stand at
--   their addresses; `Paging.Tree` says when they are a tree.
-- - fs/fat.c: `Fat` (its functions without the prefix `fat_`), with the names in `Fat.Names`. The drive is a function
--   from sectors to bytes with two predicates that say where ata_read_sectors and ata_write_sectors succeed. The
--   freeing of a chain takes fuel, one more than its clusters.
-- - kernel/syscall.c, the system calls: `Syscall`. The record `Kernel` has what the calls work on: the memory as
--   the current task sees it, the tasks, pipes, terminal and mounts. A call is a function to an `Outcome`: a value
--   in RAX, a wait, the end of the task, or the jump into another program. `Syscall.Dispatch` is
--   `syscall_handler_c`; `elf_load` and what the file systems do with the bytes of files are arguments.
-- - user/stdlib.c, the library of the user programs: `User`, with printf in `User.Format` (what is printed is a
--   list) and malloc in `User.Blocks` on the `brk` of the kernel, where a store to memory that
--   the program may not write ends in none. The loop over the digits takes 32 rounds, one for
--   each bit, the search for the end of a text 34, one more than the longest number with its sign; the
--   loops over the blocks take fuel, one more than the blocks.
-- `Ring` has what the two ring buffers share, `Base` the shared names, tests and facts on bytes.
--
-- Conventions: a C array is a function from the index (`Arr`), written by `upd`; an address is a number
-- and NULL is 0; unsigned words are numbers, with `% 2 ^ w` where an operation can wrap; a signed value is
-- its bit pattern where its sign matters. Loops recur on the rounds that are left, which their bounds in
-- the code give, so none runs out of fuel; `parse_options` takes fuel, one more than the bytes of the options,
-- which is enough, and `fold_carries` three rounds, of which a sum of 32 bits needs two. Printing to the
-- serial port is not modelled, nor are the lines that the system calls print on the console.
--
-- Not modelled: the boot code and the assembly stubs, the descriptor tables, the frame buffer, the disk and
-- the network card, which are input and output; the files and directories of the FAT file system, the ELF
-- loader, the window system, the shells and the user programs.
pub mod Base
pub mod Ring
pub mod Pmm
pub mod Pipe
pub mod Keyboard
pub mod Task
pub mod Sched
pub mod Console
pub mod Term
pub mod Memory
pub mod Net
pub mod Vfs
pub mod Heap
pub mod User
pub mod Syscall
pub mod Paging
pub mod Fat
pub mod Mouse
