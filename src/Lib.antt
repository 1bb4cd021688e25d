-- ===== src/Lib.antt =====
-- yonix: a small Unix-like kernel for the x86, in the manner of xv6, with a choice of three
-- schedulers, threads, counting semaphores and a journalling file system.
--
-- The parts and the files that model them. Paths are from the root of the repository.
-- - Log (src/log.c): the write-ahead log. `Log` is `struct log`; `Store` is what the log sees of the
--   buffer cache and of the disk, with the writes of bwrite in their order, so a power failure is a
--   cut of that list. `commit`, `begin_op`, `end_op`, `log_write` and the functions below them have
--   the names of the code.
-- - Pipe (src/pipe.c): the ring buffer. A call that waits in a loop is modelled up to the sleep; when
--   it is woken it goes on with the bytes that are left.
-- - Sem (src/semaphore.c): one pass of each waiting loop. Interrupts are off in the first pass; behind a
--   sleep they are on, and in Sem/Race a step relation has the interleavings of the callers, where the
--   test and the subtraction of such a pass are two steps.
-- - Proc (src/process.c, src/schedule.c, src/scheduler_class.c, src/proc.h): Proc/Table is the process
--   table, Proc/Sched the three schemes with wakeup and sleep, Proc/Life procalloc, fork, exit, wait,
--   kill and the threads. A process is its index in the table; functions that switch contexts are
--   modelled up to the switch. The results of kalloc and copyuvm are arguments, and the calls into
--   other parts are recorded in the order in which they are made.
-- - Priority (src/proc.h, src/param_yonix.h, src/schedule.c): priorities, time slices, average sleep.
-- - TailQueue: the queues of src/queue_netbsd.h, a copy of the NetBSD macros, as an interface.
-- - Fs (src/fs.c, src/fs.h): the superblock and the map of the blocks on a disk, whose blocks are seen as
--   the buffer cache holds them; `logged` lists the blocks given to log_write.
-- - Inode (src/fs.c, src/file.h): the blocks of a file, readi, writei and itrunc, and the copy of an inode
--   on the disk. Inode/Slots says when the blocks of an inode are well formed; `byte_at` of
--   Inode/Content is the file as a sequence of bytes, which the operations are measured by. Inode/Calls
--   runs the calls of log_write that readi and writei make, in the log of Log; below it, and in Dir and
--   Icache, log_write only records the block, and its panics are left out.
-- - Dir (src/fs.c): directories, whose entries are read and written with readi and writei; `IsEntry` of
--   Dir/Entries says what an entry with a name is, in terms of the bytes of the directory.
-- - Icache (src/fs.c): the table of inodes in memory. iget and ialloc have theorems; ilock is modelled up to
--   the sleep on a lock that another process holds.
-- - Path (src/fs.c): skipelem, which takes a path apart.
-- - Ulib (src/printf.c, src/ulib.c): how user programs print and read numbers.
-- - Words: the ints in a memory of bytes.
-- - Syscall (src/syscall.c, src/atomic.c, src/sysproc.c): how arguments are fetched from the user's
--   stack, and the calls on ints, semaphores, the clock and the nice value. Memory is total: the page
--   fault of an address that is not mapped is left out.
-- - Cstring (src/string.c): the kernel's string functions on a memory of bytes.
-- - Regex (src/grep.c): the matcher of grep.
-- - FileTable (src/file.c, and the descriptors of src/sysfile.c): open files and their references. The
--   result of writei is an argument of `filewrite`.
-- - Kalloc (src/kalloc.c): the pools of free pages and of slabs. `page_out` of src/vm.c is an argument.
-- - Bio (src/bio.c, src/sleeplock.c): the buffer cache as a list of buffers in the order of their use,
--   without the data; Log has its own view of it, the contents and the order of the writes.
-- - Swap (src/vm.c): the slots of the swap area and the choice of the page to swap out.
-- - Base: the names that all share, lists, integers, and Boolean tests.
--
-- The parts meet as in the code: the system calls use Sem on the int at a user address, the schemes
-- use the numbers of Priority and the queues of TailQueue, and wait, exit and the threads use the
-- sleep and wakeup of the schedulers. readi and writei find their blocks with bmap, which takes new ones
-- with balloc of Fs; Dir reads and writes its entries with them and compares and copies names with
-- the functions of Cstring.
--
-- Bounds: a uint wraps at 2^32 where it is written `% 2 ^ 32` or `% word`; an int is an integer, whose
-- overflow C leaves undefined. Loops recurse on the list or the count that they run through. With
-- fuel are strlen, where it has to exceed the length of the string; the loops of filewrite, readi and writei,
-- where the number of bytes is enough since each round handles one or more; the loop of slabinit, which
-- runs 127 times; the loop of balloc over the blocks of the map, of which there are at most
-- size / BPB + 1; the loops of dirlookup and dirlink, one unit for each entry; and the loop of printint, where one
-- unit more than the number is enough.
--
-- Not modelled: namex and the system calls on paths, page tables, devices, traps, exec and the boot code, which
-- work on hardware or need parts that are not here yet; user programs other than grep, and of their
-- library all but printint and atoi.
pub mod Base
pub mod Cstring
pub mod Regex
pub mod Sem
pub mod Pipe
pub mod Log
pub mod Words
pub mod Fs
pub mod Inode
pub mod Dir
pub mod Path
pub mod Ulib
pub mod Icache
pub mod Syscall
pub mod Priority
pub mod TailQueue
pub mod Proc
pub mod FileTable
pub mod Kalloc
pub mod Swap
pub mod Bio
