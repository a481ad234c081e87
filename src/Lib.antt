-- ===== src/Lib.antt =====
-- The kernel of zv6, a teaching operating system after xv6 whose file system keeps checksums and
-- copies ("ditto" inodes) of files: a model of its parts with proofs about them.
--
-- The parts and the files that model them:
--   Prelude   names, lists, results and integers that the other modules share.
--   Block     the bytes and words of a disk block, as the code reads them through pointers.
--   Disk      the buffer cache as log.c and fs.c use it: what `bread` shows, what is on the disk, and the
--             number of disk writes that are left before the power fails.
--   Log       log.c: the redo log (`begin_trans`, `log_write`, `commit_trans`, `recover_from_log`).
--             Log/Replay reads the log as an abstract update of a disk, Log/Finish and Log/Recovery are
--             about installation after a crash, Log/Commit and Log/Atomic about whole transactions, and
--             Log/Accept about which of them are accepted.
--   Bio       bio.c over memide.c: the buffers in their order of use, and the memory disk.  Bio/View
--             relates them to the view of Disk.
--   Fs        fs.c: the superblock and blocks.  Fs/Bits and Fs/Bitmap are about the free bitmap,
--             Fs/Image about the images of inodes (fs.h), Fs/Content about `bmap` and `readi`, Fs/Icache
--             about `iget` and its kin, Fs/Ilock about checksums and `ilock_ext`, Fs/Update about
--             `ialloc` and `iupdate_ext` (Fs/Update/Stored), Fs/Free about `itrunc` and `iput`, Fs/Writing about
--             `writei_ext`, Fs/Rescue about `irescue` and `ilock_trans`, Fs/Path about `skipelem`,
--             Fs/Directory and Fs/Namex about directories and paths.  Fs/Trans has `begin_trans` and
--             `commit_trans` as calls on this state.
--   Files     file.c: the table of open files, with the reference counts in Files/Refs, Files/Close and
--             Files/Alloc; Files/Io has `filestat`, `fileread` and `filewrite`, Files/Pipes `pipealloc`.
--   Sysfile   sysfile.c: descriptors, and in its children the calls: Sysfile/Paths (with the callers of
--             `namex` in fs.c), Create, Open, Link, Ditto and Calls.  Sysfile/Keeps gives the rules by
--             which a call keeps the reference counts; Opened, Keeping, Linking and Making apply them,
--             Refs and Close are about `sys_dup` and `sys_close`, Session about calls in sequence, and
--             Faults about the empty path.
--   Syscall   syscall.c: what the kernel fetches from the memory of a process, with its bounds in
--             Syscall/Bounds.
--   Pipe      pipe.c: the ring buffer.  Pipe/Queue gives the queue that it stands for, Pipe/Calls the
--             calls on it, Pipe/History all orders of calls.
--   Kalloc    kalloc.c: the list of free pages, which lies in the pages; Kalloc/Stack is the stack that
--             it stands for.
--   Proc      proc.c: `exit`, `wait`, `kill` and `wakeup` on the process table, `fork` and `yield` in
--             Proc/Spawn.  Proc/Wakeups, Exit and Wait are about lost wake-ups; Proc/Pids, Births and Lives
--             about the numbers of processes, Proc/Target about `kill`.
--   Spinlock  spinlock.c: Spinlock/Nesting is about `pushcli` and `popcli`; Spinlock/Cpus has the
--             accesses of several CPUs to one lock as a step relation, which Spinlock/Exclusion and
--             Spinlock/Progress are about.
--   Grep      grep.c: the matcher; Grep/Language gives the language of an expression.
--   Strings   string.c over a memory of bytes.
--   Sh        sh.c: the parser of the shell; Sh/Lengths and Sh/Total are about any line, Sh/Words and
--             Sh/Pipelines about those of simple commands.
--   Ulib      ulib.c and printf.c: Ulib/Numbers is about numbers in text, Ulib/Lines about `gets` and
--             `strcmp`.
-- Each module of proofs has its examples in a file Examples beside it.
--
-- How they interact: fs.c changes blocks only through `log_write`, so the state of Fs contains that of
-- Log and Disk, and its functions run in a monad whose results are a value, a panic or a sleep.  The
-- state of Files contains that of Fs, the pipes, the free pages and the process that runs, and sysfile.c
-- runs in its monad, which lifts the calls of fs.c.  A C
-- function becomes a function of the same name; a loop becomes a function by recursion, with the same
-- bounds or with fuel: `balloc` has one round for each bitmap block, `readi` and `ichecksum` one for
-- each byte, `strlen` and `skipelem` the fuel that is given, `ilock_ext` the depth of replicas of
-- replicas, `freerange` one round for each page below the end, `namex` one for each element of a path,
-- for which the length of the path is enough, and the parser of the shell two more than
-- the line has bytes.  Words are natural numbers with the
-- wrap-around of their width written out.
--
-- What is not modelled: interleavings inside a spin lock, whose sections are single steps; the second
-- half of a sleep, which is a new call; devices, whose functions are parameters; of proc.c the
-- memory and the contexts of processes; exec.c, so that of `sys_exec` only the arguments are there;
-- vm.c, umalloc.c and what the shell does with a command; the drivers, the boot code and the user programs.
pub mod Prelude
pub mod Block
pub mod Disk
pub mod Log
pub mod Bio
pub mod Strings
pub mod Syscall
pub mod Pipe
pub mod Fs
pub mod Kalloc
pub mod Files
pub mod Sysfile
pub mod Spinlock
pub mod Proc
pub mod Grep
pub mod Sh
pub mod Ulib
