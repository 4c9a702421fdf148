-- ===== src/Lib.antt =====
-- A model of the kernel in src/, a variant of xv6 for the x86 whose scheduler is a stride
-- scheduler, and proofs of its components. All paths are from the repository's root.
--
-- The parts, and which file models which code:
--   Base      shared types: tests on numbers, tables and their searches, signed integers, and
--             `Result`, whose `panic` is the kernel's call of `panic`, which halts the machine.
--   Str       src/string.c. Memory is a family of bytes. Each loop is a recursion on its count.
--   Spinlock  src/spinlock.c. `pushcli`, `popcli` and `getcallerpcs` act on one processor.
--             Spinlock/Machine has `acquire` and `release` in atomic steps, as several
--             processors interleave them.
--   Proc      src/proc.c. Proc/Table is `struct proc` and `ptable`; Proc/Alloc is `allocproc`
--             and `userinit`; Proc/Fork (with `growproc`), Proc/Exit (with `wait`) and Proc/Sleep
--             (with `wakeup`, `kill`, `yield` and the changes that `sleep` makes) follow the
--             functions of these names; Proc/Sched is the choice that `scheduler` makes, in either
--             of its loops. What the functions call in kalloc.c, vm.c, file.c, fs.c and log.c is the
--             record `Services`, over a state of these. Proc/Valid is an
--             invariant of the table, and Proc/Valid/Reach the step relation from boot on: calls of
--             `userinit`, `fork`, `growproc`, `exit`, `wait`, `kill`, `wakeup`, `sleep` and `yield`,
--             and turns of either scheduler.
--   Pipe      src/pipe.c, with counters that wrap at 2^32. A call that sleeps ends in a result that
--             says so, with the rest of its work; when it is woken it starts again with that rest.
--   Disk      the blocks as src/bio.c shows them to its callers through `bread` and `bwrite`: the
--             disk, the cache and the flag that keeps a block cached. A loss of power is a number
--             of writes that still reach the disk.
--   Bio       the list of buffers of src/bio.c with its links: `binit`, `bget` and `brelse`. Disk and
--             Bio are two views of that file, which are not joined.
--   Log       src/log.c, over Disk: `begin_trans`, `log_write`, `commit_trans` and the recovery.
--             Log/Spec says what a disk stands for: its blocks once the log has been replayed.
--   Kalloc    src/kalloc.c, over the memory of Str: the free pages, chained by their first words.
--   File      src/file.c. What it calls in pipe.c, log.c and fs.c is the record `Calls`.
--   Fs        src/fs.c and src/fs.h. Fs/Bitmap is `balloc` and `bfree`; Fs/Inode the inodes on the
--             disk and their cache, from `iget` to `ialloc`; Fs/Content `bmap`, `itrunc`, `iput`,
--             `readi` and `writei`; Fs/Dir the directories; Fs/Path the path names. Fs/Run says how
--             a call ends: it returns, it panics, or it sleeps on an inode that is locked.
--   Vm        src/vm.c, over the memory and the free pages of Kalloc: page tables are words of that
--             memory. Vm itself is `walkpgdir`, `mappages` and `setupkvm`; Vm/User the operations on
--             the user part, from `inituvm` to `copyout`. Vm/Tables says what the processor finds.
--   Syscall   the functions of src/syscall.c that fetch the arguments of a system call.
--   Grep      the matcher of src/grep.c, against the language of an expression.
--
-- How the parts interact: Kalloc uses the memory and `memset` of Str. Proc and File reach the other
-- parts only through their records of calls, so what is proved of them holds for any behaviour of
-- these. Log is the client of Disk. Fs works on blocks through the record `Blocks`, which stands for
-- `bread` and `log_write` over any state `W` of the cache and the log; its law `IsLawful` says that
-- `log_write` changes the one block it is given, among those below the log. Within Fs each part calls
-- the ones before it.
--
-- State is passed explicitly: an operation takes the record of its component and returns the new
-- one, with `none` for a null pointer. Where an operation may call `panic`, it returns a `Result`.
-- Interleavings are step relations (the data types `Step` and `Reach`), and an invariant is proved
-- by induction on them.
--
-- Numbers are natural numbers. Where the code counts in a `uint` that can wrap, the remainder by
-- 2^32 is written out. A file's `ref` is taken not to reach 2^31. `pid` and `nextpid` are `int`s, kept
-- as their 32-bit patterns, so that from 2^31 on they stand for negative numbers; the steps of
-- Proc/Valid that give a pid are taken only while `nextpid + 1` is below 2^31.
--
-- Loops with fuel: `free_pages` has fuel 2^20, the number of pages in the address space, and the
-- theorem on `freerange` shows that it is enough; `write_chunks` has as much fuel as there are
-- bytes, and each round writes at least one of them. In Fs, `read_from` and `write_from` have as much
-- fuel as bytes, the loops over a directory have a turn for each entry and more, `walk` has one for
-- each character of the path and more, and `balloc_from` has one for each block of the bitmap; the
-- theorems on their callers show that this is enough. A local variable that is read before it is
-- written whole is an argument, `junk`. The loops of Vm over pages have fuel 2^20, the number of pages
-- in the address space, which the theorem on `mappages` shows to be enough for it. The loops of `bget`
-- have fuel for one turn more than there are buffers.
--
-- Not modelled: the spin locks inside the other parts, whose critical sections are taken as atomic;
-- seginit, switchkvm and switchuvm of vm.c, which load registers; exec.c and the handlers of system
-- calls; the device drivers, the assembly code and the boot loader, which are about hardware; and the
-- user programs but for the matcher. What other processes do while a call of Fs sleeps on an inode is
-- not followed, and a call of a device through `devsw` is a parameter.
-- The bounds of C's object model are not checked: a memory has a byte at each address.
pub mod Base
pub mod Spinlock
pub mod Proc
pub mod Str
pub mod Bio
pub mod Disk
pub mod Log
pub mod Pipe
pub mod Kalloc
pub mod File
pub mod Grep
pub mod Syscall
pub mod Vm
pub mod Fs
