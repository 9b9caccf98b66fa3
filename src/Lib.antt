-- ===== src/Lib.antt =====
-- LainOS: the kernel of an xv6-like teaching system for the x86, and its C library.
--
-- The parts, and the files that model them:
--   Log.antt and Log/: kernel/log.c, the redo log under the file system (`begin_trans`,
--     `log_write`, `commit_trans`, `recover_from_log`, `initlog`), with `readsb` of kernel/fs.c.
--     It rests on the contract of kernel/bio.c: a buffer shows its cached content, a dirty buffer
--     is not evicted, `bwrite` writes through to the disk, and the `bread` in `log_write` panics
--     without a clean buffer.
--   Pipe.antt and Pipe/: kernel/pipe.c, a bounded byte stream between processes.
--   Mem.antt and Mem/: kernel/string.c over a flat memory of bytes.
--   Proc.antt and Proc/: kernel/proc.c, the process table: `allocproc`, `fork`, `exit`, `wait`,
--     `sleep`, `wakeup`, `yield`, the scheduler's choice, and `kill`.
--   Kalloc.antt and Kalloc/: kernel/kalloc.c, the free list of pages, threaded through the pages.
--   Spinlock.antt and Spinlock/: kernel/spinlock.c, `acquire` and `release` in the steps that other
--     CPUs see, and the nesting of `pushcli` and `popcli`.
--   Files.antt and Files/: kernel/file.c, the descriptors of kernel/sysfile.c (`sys_dup`,
--     `sys_close`, `sys_pipe`) and `pipealloc`: the reference counts of the open files.
--   Icache.antt and Icache/: `iget`, `idup` and `iunlock` of kernel/fs.c, the cache of inodes.
--   Fs.antt and Fs/: kernel/fs.c as a transaction sees the disk: `balloc` and `bfree` over the bitmap,
--     `iupdate`, `bmap`, `readi` and `writei`, `ialloc`, the read of an inode in `ilock`, and `skipelem`.
--     A function that writes runs in a transaction with room in its log: the panics of `log_write` are
--     in Log.
--   Bcache.antt and Bcache/: kernel/bio.c, the buffers in their ring of recent use, with the memory disk
--     of kernel/memide.c.
--   Console.antt and Console/: kernel/console.c, the input line with its editing, in
--     Console/Print `printint` and `cprintf`, and the screen of `cgaputc`.
--   Vm.antt and Vm/: kernel/vm.c, page tables of two levels in the pages of Kalloc: `walkpgdir`,
--     `mappages`, `clearpteu`, `uva2ka` and `copyout`, and in Vm/Space `deallocuvm` and `allocuvm`.
--   Args.antt and Args/: kernel/syscall.c, the checks of a system call's arguments.
--   Libc.antt and Libc/: the string functions of libc/string.c.
--   Base.antt and Base/: shared tests, lists, arrays, 32-bit words and outcomes.
--
-- A C array or memory is a function from its index, a loop over an index range is a recursion on
-- the rounds left, and a `uint` wraps by `% 2 ^ 32`. A critical section under a spinlock is one
-- atomic function; a call that reaches `sleep()` stops there and says what it still has to do.
-- A panic is an outcome of its own. The loops up to a NUL byte run on fuel, of which any number
-- above the length of the string is enough, and so does the loop of `freerange`, whose caller gives
-- it one unit more than the range has pages. `balloc` has one unit for each bitmap block, `ialloc`
-- one for each inode, `bget` one more than there are buffers, and the loops of `readi` and `writei` have
-- the number of bytes to go, as every round takes at least one; so has the loop of `copyout`. The loops of
-- `deallocuvm` and `allocuvm` have one unit more than the size has pages. `kill_line`
-- has the length of the line, `mappages` the number of pages, and `printint` 32 units, as a word has no more
-- digits.
--
-- The parts meet in this way: a process of Proc has descriptors, which Files counts; a file is a pipe's
-- end, or an inode on the blocks of Fs, whose writes Log makes atomic; Bcache gives both the content of
-- a block, as Log and Fs take it; Kalloc gives the pages of pipes, stacks, page tables
-- and address spaces; the atomic sections of all of them stand under a lock of Spinlock.
--
-- Not modelled: the directories and `namex` of kernel/fs.c with `iput` and `itrunc`; `setupkvm`,
-- `inituvm`, `loaduvm`, `freevm`, `copyuvm` and the segments of kernel/vm.c; `panic` and the device
-- setup of kernel/console.c; exec.c, the dispatch of syscall.c, and the rest of libc/; the hardware drivers
-- (kernel/ide.c, uart.c, kbd.c, lapic.c, ioapic.c, picirq.c, timer.c, mp.c), boot code and assembly,
-- which program devices; and the programs under apps/.
pub mod Args
pub mod Base
pub mod Bcache
pub mod Console
pub mod Files
pub mod Fs
pub mod Icache
pub mod Kalloc
pub mod Libc
pub mod Log
pub mod Mem
pub mod Pipe
pub mod Proc
pub mod Spinlock
pub mod Vm
