-- ===== src/Lib.antt =====
-- Verification of the YYDS kernel, a teaching kernel in C for RISC-V that extends xv6.
--
-- The parts that are modelled, and where:
--
--   Common          the shared vocabulary: Boolean tests, lists, arrays as functions (Family), and the
--                   results of code that can panic (Effects).
--   Kalloc          kernel/mm/kalloc.c, the physical page allocator. The record Kmem is `kmem` and
--                   `ref`; kinit, freerange, kfree, kalloc, krefcnt, kaddrefcnt and freebytes keep their
--                   names. Invariant says what exact free lists are, Alloc is about kalloc, Boot about
--                   kinit and freebytes.
--   Log             kernel/filesystem/log.c, the redo log of the file system. The record Log is `log`
--                   with the buffer cache and the disk under it; begin_op, log_write, commit,
--                   write_log, write_head, read_head, install_trans, recover_from_log and initlog keep
--                   their names; end_op is end_leave and, without the lock, end_commit. Bufs has the
--                   reference counts of the buffers, of which there are NBUF. Header is about the
--                   words of the header block; Region splits the disk into log and home; Install,
--                   Fill and Recover are about the three loops; Commit, Crash and Durable about a
--                   transaction; Counts, Buffers, Fed and Pins about reference counts and buffers;
--                   Absorb, System, Moves and Reserve about calls that run side by side.
--   Pipe            kernel/proc/pipe.c, pipes. The record Pipe is `struct pipe`; pipeclose, pipewrite and
--                   piperead keep their names. Ring reads the ring as a queue, Write and Read are about
--                   one call, Trace and Sleep about all calls on a pipe.
--   Capability      kernel/proc/capability.c. The record Caps is the process table, as far as capabilities
--                   go, with `cap_mgr` and the audit log; all operations keep their names. Check is
--                   about checks, Change about the calls that set capabilities.
--   Slab            kernel/mm/slab.c, small objects. Slab is `caches` and `slab_stats` over the state of
--                   Kalloc; slab_init, slab_alloc, slab_free and slab_shrink keep their names, and
--                   slab_page_init is slab_page_at after a kalloc. Invariant says which page stands on
--                   which list, Pages is about lists of pages, Alloc and Free are about the two
--                   calls.
--   Cgroups         kernel/proc/cgroups.c, control groups. The record Cgroups is `cgroups_state`; the
--                   operations keep their names. Settings has the calls that set limits, Memory the
--                   memory controller, Traffic the token buckets of io and net; Tables, Members and
--                   Preserve are about the table of groups, System about any order of calls.
--   Bio             kernel/filesystem/bio.c, the buffer cache. The record Bcache is `bcache` and the
--                   disk under it; binit, bget, bread, bwrite, brelse, bpin and bunpin keep their names.
--                   Search is about the loops of bget, Invariant and Get about where buffers stand, View,
--                   Read and Write about what a reader sees, System about any order of calls.
--   Ability         kernel/proc/ability.c, abilities and the stack of foreground pages. The record Manager
--                   is `ability_mgr`; the calls keep their names. Table and Stack are about the two,
--                   Preserve and System about any order of calls, Start and Navigate about pages.
--   Messages        kernel/proc/ability.c, the messages between abilities. The record Mq is `ability_mq`;
--                   the calls keep their names, and ability_call is call_begin and call_poll. Deliver is
--                   about a message and the next receive.
--   Freezer         kernel/proc/freezer.c, the freezing of processes. The record Freezer is `freezer` with
--                   what it uses of the process table; the calls keep their names, and a loop over the
--                   table is a function that ends in _from. Thaw is about a freeze and a thaw.
--   Fs              kernel/filesystem/fs.c, the blocks of files. The record Disk is the superblock with the
--                   content of each block, as the log and the buffer cache show it; bzero, balloc, bfree,
--                   bmap and itrunc keep their names, with the array `addrs` of the inode as an argument.
--                   Balloc is about the bitmap, File says what the addresses of a file are, Assign,
--                   Place and Bmap are about new blocks, Free, Lists and Trunc about freed ones.
--   Futex           kernel/proc/futex.c, waiting on addresses. The record Manager is `futex_mgr` with what
--                   it uses of the process table; futex_init, futex_wake, futex_wake_bitset and
--                   futex_requeue keep their names, and futex_wait is futex_enqueue, futex_sleep and
--                   futex_leave, between which other calls run. Woken and Wake are about wake calls, Lost,
--                   Race and Requeue about processes that no call finds, Counted about any order of calls.
--   Vma             kernel/mm/vma.c, the memory areas of a process, with the reference counts of
--                   kernel/filesystem/file.c. The record Space is the array `vma` of a process and `ref` of
--                   the files; vma_map, vma_find, vma_copy, vma_free_all, filedup and fileclose keep their
--                   names. Refs and Held are about the references, Map is about disjoint areas, Copy
--                   about a fork and an exit.
--   Strings         kernel/lib/string.c. Memory is the function from addresses to bytes; the functions
--                   keep their names. Move is about memmove, Copy about safestrcpy.
--
-- How the parts interact: file system calls run between begin_op and end_op and change the disk only
-- by log_write; the log pins its blocks in the buffer cache, of which Log keeps the contents, as one
-- copy of each block, and the reference counts; Bio has the buffers themselves. A pipe lives in a
-- page of the allocator, which pipeclose gives back to kfree; the slab allocator takes its pages by
-- kalloc and gives them back by kfree. Capabilities stand in the process table. The sleep and wakeup
-- of kernel/proc/proc.c appear as attempts that are repeated, and in Pipe as flags that say who
-- sleeps.
--
-- State is passed explicitly, and the time `ticks` is an argument. A function is one step, except that end_op
-- and futex_wait are split where they give up a lock: other locks leave no trace, and the orders in which calls of several
-- processes interleave are the step relations of Log/System, Pipe/Trace, Cgroups/System, Bio/System,
-- Ability/System, Futex/Counted and Futex/Lost. `panic` is a value (Common/Effects). A 32-bit counter wraps at 2 ^ 32, a
-- 64-bit address at 2 ^ 64, written out. The loop of freerange runs on fuel, one more than the
-- number of pages below its end; all other loops are structural. `past` in Log, `written` and
-- `taken` in Pipe are records of the past that the code does not keep.
--
-- Parameters: the address where the kernel ends (from the linker), the file system's position and size of
-- the log (from its superblock), the disk under the buffer cache, and for pipes the copies of a byte
-- from and to user memory, copyin and copyout.
--
-- Not modelled: the copy-on-write handlers of kalloc.c and the page tables, the file structures that
-- pipealloc fills, the locks of the buffer cache, processes and scheduling, the inode cache, the
-- reading and writing of files, the page tables under vma_unmap and vma_fault, directories and path names, drivers, traps, the network, and user programs.
pub mod Common
pub mod Kalloc
pub mod Fs
pub mod Log
pub mod Pipe
pub mod Capability
pub mod Slab
pub mod Cgroups
pub mod Bio
pub mod Ability
pub mod Messages
pub mod Freezer
pub mod Strings
pub mod Futex
pub mod Vma
