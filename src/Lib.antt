-- ===== src/Lib.antt =====
-- FogOS, an operating system kernel for RISC-V in the line of xv6: a verification library of its
-- kernel and of parts of its user programs, in a shallow embedding. Every definition that models
-- code is a translation of C code of the repository.
--
-- The parts and their files. Each part is a file with the state and the operations, and a folder
-- of the same name with the proofs and the tests.
--   Log        kernel/log.c: the redo log. `Log` is `struct log`; install_trans, read_head,
--              write_head, recover_from_log, write_log, commit, initlog, begin_op, end_op and
--              log_write are commands over the disk of Disk. Log/Write has the use of the log by
--              the file system (bread, change, log_write, brelse), among it `bzero` of
--              kernel/fs.c, and Log/Transaction a whole call between begin_op and end_op.
--   Disk       kernel/bio.c, as the log uses it: bread, bwrite, brelse, bpin and bunpin over the
--              contents of the buffers, their references, and a disk whose power can fail before
--              any write. A buffer that nobody holds may be recycled at any time, and bread panics
--              when all NBUF buffers are held and none of them is for the block.
--   Buffers    kernel/bio.c by itself: the buffers and their linked list through binit, bget, bread,
--              bwrite, brelse, bpin and bunpin. Buffers/Ring has the links as a list, Buffers/Lru
--              one routine over it, and Buffers/History any calls.
--   Sleeplock  kernel/sleeplock.c, which Buffers uses: initsleeplock, acquiresleep, releasesleep
--              and holdingsleep.
--   Fs         kernel/fs.c, the bitmap of blocks: balloc and bfree on the bytes of the blocks in
--              a transaction, down to the bit operations on a byte.
--   Inodes     kernel/fs.c, the inodes: `itable` through ialloc, iget, idup, ilock, iupdate, iput,
--              bmap and itrunc over the bytes of the disk's blocks. Inodes/Content has readi,
--              writei and stati, and Inodes/Dirs dirlookup, dirlink and namex.
--   Names      kernel/fs.c, skipelem: a path name as the list of its bytes.
--   Kalloc     kernel/kalloc.c: kinit, freerange, kfree and kalloc, with the free list in the
--              words of an explicit memory. The address of the linker's `end` is a parameter.
--   Vm         kernel/vm.c, with the macros of kernel/riscv.h and kernel/memlayout.h: page tables
--              in the words of the memory of Kalloc. Vm/Flags packs entries, Vm/Walk, Vm/Tables,
--              Vm/Link and Vm/Map follow walk and mappages, Vm/Cells has the bytes of the words,
--              Vm/Space uvmunmap, uvmalloc, uvmcopy and freewalk, Vm/Copy copyout, copyin and
--              copyinstr, and Vm/Kernel the kernel's own table with proc_mapstacks.
--   Procs      kernel/proc.c: the process table through userinit, fork, exit, wait, sleep,
--              wakeup and kill. Procs/Family/Reach has the steps of the processes as a relation.
--   Pipe       kernel/pipe.c: pipewrite, piperead and pipeclose. Pipe/Fifo lets any number of
--              readers and writers take turns.
--   Console    kernel/console.c: consoleintr and consoleread. Console/View sees the buffer as
--              two lists, the characters ready and the line being typed.
--   Files      kernel/file.c: the reference counts of open files through filealloc, filedup and
--              fileclose; what fileclose does behind the file is a result. Files/Io has fileread,
--              filewrite and filestat, with pipes and devices as arguments; Files/Calls and
--              Files/Opening the calls of kernel/sysfile.c on descriptors and names.
--   Spinlock   kernel/spinlock.c: push_off, pop_off, acquire, release and holding, with a
--              test-and-set or a store to the lock as one step, and CPUs that step in any order;
--              release is begin_release and end_release, around its store to `cpu`.
--   Bytes      kernel/string.c: blocks of memory and C strings. Bytes/Little has the fields of a
--              structure in memory, with the least byte first.
--   Printf     kernel/printf.c (Printf/Kernel) and user/printf.c (Printf/User), up to the
--              characters that come out.
--   Ulib       user/ulib.c: the string and number functions of the user programs.
--   Grep       user/grep.c: the matcher and the loop over the input. Grep/Language has the words
--              that an expression stands for.
--   Uart       kernel/uart.c: the transmit buffer, through uartputc, uartstart and uartintr; what
--              the status register reads is an argument.
--   Shell      user/sh.c: the parser, from a line to a tree of commands. Shell/Tokens has gettoken
--              and peek, Shell/Ends the redirections, and Shell/Total parseline and parsecmd.
--   Ring       the ring buffer that Pipe, Console and Uart share.
--   Prelude    Boolean tests, lists over native numbers, machine words, and `Outcome` for a
--              routine that may panic.
-- Pipe, Console and Uart share only Ring. Vm takes its pages from Kalloc. The block operations of
-- Fs see the contents that Log shows inside of a transaction: a block changed by one of them is
-- read changed by the next.
--
-- Conventions. A `uint` or an `int` is its 32-bit pattern, with the wrap-around written out
-- where the code can reach it; an index of a table or an address is a natural number. A routine
-- that holds its lock runs without interruption: a turn ends where the code returns or sleeps,
-- and what happens while it sleeps comes between two turns. A routine of Procs with several
-- critical sections (fork, exit) runs as one step. Inodes and Files leave the locks out: a routine
-- runs by itself. Copies to a user address are arguments of Inodes/Content. `panic` is a result of
-- its own.
--
-- Fuel. The loops of the code are recursion on the rounds that are left: for `for` loops that is
-- the number of rounds of the code. `freerange` gets as many rounds as pages fit under its end,
-- `balloc` as many as there are bitmap blocks, and `uartstart` one more than the buffer holds,
-- which are never used up before the code's own test ends the loop. `mappages` gets a round for
-- each page below MAXVA and one more, where walk refuses the address; `copyout`, `copyin`,
-- `copyinstr`, `readi`, `writei` and `filewrite` one for each byte asked for, as every round that
-- goes on moves at least one; the loops of `bget` one for each buffer and one more; `uvmalloc` and
-- `uvmcopy` one for each page of the size and one more; `freewalk` one for each of the three levels
-- of a table; `dirlookup` and `dirlink` one for each entry of the directory and one more; `namex`
-- one for each byte of the path and one more; `printint` one for each bit; the loops of the shell's
-- parser, and the depth of parseline within itself, one for each byte of the text and one more.
-- `strlen`, and strcpy, strcmp, strchr and atoi of Ulib, have no bound of their own, and take one
-- as an argument.
--
-- Not modelled: exec, traps and the fetching of the arguments of system calls, the
-- scheduler, the drivers of the disk and the interrupt controller, assembly and boot code, the
-- allocator of the user library, what the shell does with a parsed command, the other user
-- programs, the user tests, and mkfs.
-- A page that cannot be had and a process that is killed meanwhile are arguments of the routines
-- of Procs, Pipe and Console that ask for them, and so is user memory that may be unmapped.
pub mod Prelude
pub mod Ring
pub mod Disk
pub mod Log
pub mod Pipe
pub mod Console
pub mod Kalloc
pub mod Bytes
pub mod Fs
pub mod Procs
pub mod Uart
pub mod Spinlock
pub mod Files
pub mod Names
pub mod Vm
pub mod Inodes
pub mod Printf
pub mod Ulib
pub mod Grep
pub mod Sleeplock
pub mod Buffers
pub mod Shell
