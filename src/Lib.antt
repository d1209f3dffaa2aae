-- ===== src/Lib.antt =====
-- The kernel xv6, a block file server over UDP and a parallel sort, modelled from their C sources.
--
-- Parts and files. Every operation is a function on a record of the state that it changes; `none`, or
-- a constructor of the operation's own result type, is a panic, a sleep or an error return. A call that
-- may sleep is cut there: the pieces between two sleeps run under the lock that the source holds, and
-- interleavings are sequences of pieces.
-- Module Base: Boolean tests, lists under native numbers, and maps from numbers as functions.
-- Module Xv6/Log (xv6/base/log.c): the redo log, with `begin_op`, `log_write`, `end_op`, `commit` and
-- recovery. The disk is a map from block numbers to blocks of words, and the model keeps the list of
-- its states, so that a crash is a choice from it. Log/Reserve is about the room that `begin_op`
-- keeps, Log/Install, Log/Txn, Log/Header and Log/Recover about the steps of a commit, and Log/Atomic
-- about crashes.
-- Module Memory: ranges of bytes, and numbers and arrays of ints in them, which the file systems share.
-- Module Xv6/Fs (xv6/base/fs.c): the state of the inode layer, readsb, the bitmap with `balloc` and
-- `bfree`; Fs/Inodes has the inode cache from `iget` to `iput`, Fs/Files `bmap`, `readi` and `writei`,
-- Fs/Dirs directories and Fs/Paths the walk along a path. It sees the buffer cache as a map from block
-- numbers to blocks, with the list of the blocks given to `log_write`.
-- Module Xv6/Bio (xv6/base/bio.c, xv6/base/memide.c): the buffer cache as an array of buffers and the list
-- of their indices by last use, and the memory disk. Its locks are the sleep locks of Xv6/Spinlock.
-- Module Ring: the bytes between two uint counters of a ring, which the pipe and the console share.
-- Module Xv6/Console (xv6/base/console.c): the ring of the console, edited by the interrupt handler and
-- read by lines. The bytes that `getc` returns are a list, and the output is the list of the characters;
-- Console/Output has `printint` and `cprintf`.
-- Module Xv6/File (xv6/base/file.c): the table of open files. Pipes and inodes are parameters of its reads
-- and writes.
-- Module Xv6/Pipe (xv6/base/pipe.c): a pipe with its ring of bytes and its 32-bit counters that wrap.
-- Module Xv6/Proc (xv6/base/proc.c): the process table, with `fork`, `exit`, `wait`, `sleep`, `wakeup`,
-- `kill` and the scan of the scheduler. Entries of the table are named by their index.
-- Module Xv6/Kalloc (xv6/base/kalloc.c): the free list of pages, linked through the memory itself.
-- Module Xv6/Spinlock (xv6/base/spinlock.c, xv6/base/sleeplock.c): locks with the interrupt bookkeeping of a
-- processor.
-- Module Xv6/Bytes (xv6/base/string.c): memory as a function of the address.
-- Module Xv6/Syscall (xv6/base/syscall.c, sysproc.c): the arguments that a call fetches from its process.
-- Module Xv6/Sysfile (xv6/base/sysfile.c, with pipealloc of pipe.c and the ends of fileclose and filestat of
-- file.c): the calls on descriptors and, in Sysfile/Names, on paths, over the inode layer, the file table, the
-- pipes and the pages. A call is a function of the state of the running process; `begin_op` and `end_op` count
-- its open transactions. Sysfile/Exec has exec (xv6/base/exec.c), loaduvm and sys_sbrk, and Sysfile/Reach
-- the steps of a process that makes one call after the other.
-- Module Xv6/Vm (xv6/base/vm.c, growproc of proc.c): page tables in the words of the memory of Xv6/Kalloc;
-- Vm/Spaces has the calls that build, copy, fill and resize an address space.
-- Module Xv6/Ulib (xv6/base/ulib.c): the user library's functions on strings.
-- Module Xv6/Sh (xv6/base/sh.c): the parser of the shell, with a printer of commands that it is read
-- against; Sh/Fuel is about its rounds, Sh/Commands and Sh/Lines about the levels of the grammar.
-- Module Server (filesystem/server.c): the file server over its image file, a function of the byte address;
-- Server/Handlers has the operations on files and the dispatch of requests.
-- Module Sort (parallel-sort/mergesort.c): the serial sorts and merges, over an array as a function of the
-- index, and the split point of the parallel merge.
--
-- Bounds and fuel. A 32-bit counter wraps where the source relies on it or where it may pass its bound:
-- the counters of the pipe and the console, the reference counts of buffers, the comparison of keys, the
-- next pid, the counters of the loops of vm.c, and the addresses, the highest block and the highest inode
-- of the server. Loops over a table recurse on the number of entries left, NPROC being 64, NFILE 100 and
-- NINODE 50. The other loops have fuel: the spaces between two addresses for
-- `freerange`; one round for every element and one for the end in a merge; one round for every byte and one
-- for the end in `filewrite`, `readi` and `writei`, and for every character in the loops over a string or a
-- path; one for every block of the bitmap and one more in `balloc`; one for every entry and two more in
-- `dirlookup` and `dirlink`; one for every character and three more in the parser of the shell; INPUT_BUF
-- in the killing of a line and 16, the size of the buffer, for the digits of a number; one for every entry
-- and two more in `isdirempty`; MAXARG, which is 32, in `sys_exec`; one for every page from the first to the
-- last in `mappages`, one for every page and two more in the other loops of vm.c, and one for every byte and
-- one for the end in `copyout`.
--
-- Not modelled. The last steps of `sys_read` and `sys_write`, whose arguments are fetched here and whose file
-- is read and written by `fileread` and `filewrite`; the name and the program counter that `exec` sets; the
-- segment and control registers, traps, device drivers, boot, the running of commands by the shell, the linux
-- shell, the user programs and the image builders; of the console the screen; of the file server the start,
-- which opens the image, the network, the client, and what a read finds after a seek that fails; of the sort
-- the threads and the reading of files. A call on files that sleeps on the lock of an inode is cut there and
-- not resumed. Memory ordering and the preemption inside a critical section are left out, and the kernel's
-- stacks.
pub mod Base
pub mod Memory
pub mod Ring
pub mod Server
pub mod Sort
pub mod Xv6
