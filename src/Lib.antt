-- ===== src/Lib.antt =====
-- The kernel of this repository, an xv6 for RISC-V with course projects added to it.
--
-- Prelude: shared names, lists over native numbers, loops, sets, memories, and computations that may
--   panic (Prelude.Results; a fault such as a load through a null pointer is a panic as well).
-- Kalloc: kernel/kalloc.c, the allocator of physical pages. `Kalloc.Interface` is what its clients
--   rely on, and what kalloc.c is proved to provide.
-- Task: proj2/kernel/pqueue.h, and the insertion into a linked queue that two files share.
-- PipeRt: proj2/kernel/pipe_rt.c, the pipe that hands out tasks by priority.
-- Pqueue: proj2/kernel/pqueue.c, a queue of tasks behind a lock.
-- Log: kernel/log.c, the redo log of the file system, with crashes between any two disk writes.
-- Pipe: kernel/pipe.c, the byte pipe, pass by pass, and the stream of bytes through it.
-- Sleeplock: kernel/sleeplock.c.
-- Bcache: kernel/bio.c, the buffer cache: the list of buffers in order of use, lookup, contents.
-- Files: kernel/file.c, the table of open files with its reference counts, and the makers of pipes,
--   pipealloc of kernel/pipe.c and pipe_rt_alloc of proj2/kernel/pipe_rt.c; reads and writes of a file
--   that is an inode (Files.Data).
-- Strings: kernel/string.c, the routines on byte memories and on strings.
-- Console: kernel/console.c, the input ring, its line editing, and the reads of lines.
-- Proc: kernel/proc.c, the table of processes, as a step relation: every part of a function between two
--   points where it holds no lock is a step, of any process, scheduler or interrupt, on any CPU.
-- Timer: the clock interrupt of kernel/trap.c with the timers of proj3/kernel.
-- Vm: kernel/vm.c and the macros of kernel/riscv.h, page tables of three levels and the copies between
--   kernel and user.
-- Spinlock: kernel/spinlock.c, with the calls on all CPUs in any order; a round of the loop of `acquire`
--   is a step.
-- Print: `printint` of kernel/printf.c and user/printf.c, and `atoi` of user/ulib.c. The loop over the
--   digits has 64 rounds, and 32 in the user library, where no number has so many digits.
-- Grep: the matcher of user/grep.c.
-- Fs: kernel/fs.c. The bitmap of free blocks (Fs.Bits, Fs.Bitmap); the blocks of an inode, `bmap` and
--   `itrunc` (Fs.Inodes); `readi` and `writei` against the bytes of a file (Fs.Contents); entries of
--   directories (Fs.Directories); the elements of a path (Fs.Paths); the table of inodes (Fs.Itable);
--   the walk of `namex` along a path (Fs.Namei), against the tree of directories (Fs.Namei.Tree).
-- Shm: proj4/kernel/shm.c, the shared page and its reference count.
--
-- A function of the source is a definition of the same name in snake case, which takes the state that
-- the C function reads and returns the state that it leaves; `panic(...)` is the result `panic`. The
-- code under one lock is one step. Loops over linked nodes run on fuel, and the theorems give enough:
-- one round for each node and one for the last test. `struct pq_node` lives on a page of its own, and
-- a page that is freed is no node any more, so a use after free is a fault.
--
-- The loop of `filewrite` has a round for each byte and one more: a round that writes nothing is what
-- can keep it from ending. The loops of the buffer cache have NBUF + 1 units of fuel, and erasing a line
-- of the console has 129.
-- A call that may sleep is modelled up to there, and from there on as a call on what it then finds.
-- The pipes, the file table and the shared page use the allocator through `Kalloc.Interface`, and the
-- buffer cache uses the sleep locks of Sleeplock.
--
-- In Proc a process is its number from 1 to NPROC, 0 is the null pointer, and the loops over the table
-- run NPROC times. `exit`, `wait` and the parts of `fork` are one step each, from where they take
-- their lock to where they give it up or switch to the scheduler; whether memory could be allocated
-- is an argument, as are the answers of user memory. The number of processes made stays below 2^31.
-- In Vm the page-table pages are apart from all other memory, and their allocator is
-- `Kalloc.Interface` with aligned pages. The loops of `copyin`, `copyinstr` and `copyout` have a round for each
-- byte and one more, and the loop of `mappages` one for each page; the theorems show that this is enough.
--
-- In Fs a block is the bytes that `bread` finds, on one device, and a call inside a transaction is one
-- step; the superblock is a parameter. The blocks of inodes are a table of `struct dinode`. An inode in
-- memory has its copy of the `struct dinode` as one field. `either_copyin` and `either_copyout` are
-- given by how many bytes they copy before they find a page that may not be used. The loops of `readi`
-- and `writei` have a round for each byte, that of `itrunc` one for each number, those over a
-- directory one for each byte of it, and that of `balloc` one for each block of the bitmap.
-- The loop of `namex` has a round for each character of the path and one more. `dirlookup` ends before
-- its call of `iget`, which `found_at` of Fs.Namei puts behind it, and `dirlink` is without the `iget` and
-- `iput` of a name that is there. A call of `namex` is one step: no other process changes the tree or the
-- table of inodes during it, and it finds the sleep lock of an inode free.
--
-- Not modelled: interrupts, the trap path and the drivers, which are hardware; user programs and
-- their tests; what a compiler or the hardware may reorder. Nor kernel/sysfile.c, of
-- kernel/fs.c `fsinit` and `iinit`, which read the superblock and set up locks, and the sleep locks of inodes,
-- and of kernel/vm.c the copy and the release of a whole address space. The log stands on the contents
-- that the buffer cache gives for a block, and not on the buffers of Bcache. The memory, registers and
-- files of a process are not in its table.
pub mod Prelude
pub mod Kalloc
pub mod Task
pub mod PipeRt
pub mod Pqueue
pub mod Log
pub mod Pipe
pub mod Console
pub mod Sleeplock
pub mod Bcache
pub mod Files
pub mod Strings
pub mod Proc
pub mod Timer
pub mod Vm
pub mod Spinlock
pub mod Print
pub mod Grep
pub mod Fs
pub mod Shm
