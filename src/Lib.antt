-- ===== src/Lib.antt =====
-- Formal models of SpikeOS, a small 32-bit kernel for the i386, and what is proved of them. Paths are
-- relative to the root of the repository.
--
-- The parts and the files that model them:
--
--  * Frames: the bitmap of physical frames in kernel/mm/paging.c (`alloc_frame`, `free_frame`,
--    `reserve_region`, `alloc_frames_contiguous`, `free_frames_contiguous`).
--  * Heap: `kmalloc`, `kfree` and the growth of kernel/mm/heap.c. The blocks stand in the order of their
--    addresses, the free list beside them; the abstract view is the size of the block in use at each
--    address. Growth takes its pages from the frames; here it is told how many can be had. Heap/Resize has
--    `krealloc` and `kcalloc`, with the bytes of the blocks in use besides.
--  * Wait: the wait queues of kernel/proc/wait.c. Everything that blocks stands on them.
--  * Lock: kernel/proc/mutex.c, condvar.c and rwlock.c. Each call is cut where interrupts are enabled;
--    Lock/Mutex/System and Lock/RwLock/System are the step relations that interleave the pieces for all
--    processes.
--  * Pipe: the ring of kernel/fs/pipe.c, and `pipe_read` and `pipe_write` pass by pass, with any
--    behaviour of the others between two passes (Pipe/Round).
--  * Fd: the open file table and the descriptor tables of kernel/fs/fd.c, and `pipe_create`. Fd/Access has
--    `fd_read`, `fd_write` and `fd_seek` over the contents of files (Vfs), Fd/Open has `fd_open` over the
--    directories (Vfs/Tree), Fd/Dup has `sys_dup` of kernel/core/syscall.c. Fd/Run is the step relation of
--    the calls that all processes make on their descriptors. A close of the last descriptor of a pipe end
--    closes that end of the pipe, which wakes the other side.
--  * Process: the process table, creation, killing, reaping and signals of kernel/proc/process.c, and
--    `sys_waitpid` of kernel/core/syscall.c. A death closes descriptors, and wakes the parent.
--  * Scheduler: `scheduler_init`, `pick_next` and `scheduler_tick` of kernel/proc/scheduler.c on the process table.
--  * Vfs/Tree: inodes, directory entries and `vfs_resolve` of kernel/fs/vfs.c, whose loop runs on fuel,
--    one unit for each byte of the path. Vfs/Tree/Calls has `vfs_create_file`, `vfs_mkdir` and `vfs_remove`,
--    and Vfs/Tree/Rename `vfs_rename`; they are told what the stack holds where `vfs_resolve` stores nothing.
--  * Vfs: the contents of files in kernel/fs/vfs.c, `vfs_read` and `vfs_write`. The buffers come from
--    `krealloc`; here it is told what the new memory holds, or that there is none.
--  * Paging: page directories and tables in kernel/mm/paging.c. Physical memory is the bitmap and the words of
--    each page; the window of `temp_map` shows a page itself, and its entry in the first table is kept.
--    Paging/Mmio has `map_mmio_region`. `page_fault_handler` is Process/Fault, as it signals the process.
--  * Space: the address space of a process in kernel/core/syscall.c: `bad_user_ptr`, `sys_brk`, `sys_mmap`
--    and `sys_munmap` over the frames and the tables.
--  * Net: kernel/net. Net has the checksum and `ip_send` and `ip_handle`; Net/Arp the cache, Net/Udp the
--    sockets, Net/Icmp echo, Net/Link Ethernet, Net/Text `ip_parse` and `ip_fmt`.
--  * Input: the event queue of kernel/drivers/event.c, and in Input/Keyboard the ring and the interrupt handler
--    of kernel/drivers/keyboard.c, which feeds both rings.
--  * Libc: of userland/libc, the allocator (Libc/Malloc) with `sbrk` as a parameter, and memcpy, memmove,
--    memset and memcmp (Libc/Memory).
--  * Spikefs: of kernel/fs/spikefs.c the block bitmap (Spikefs/Bitmap) and the data of one inode, written by
--    `spikefs_sync` and read by `spikefs_load`. The disk is the sectors and the set of those that fail.
--  * Prelude: lists, integers, orders, bits and bounded searches that all of them use.
--
-- How the code is translated. A critical section, which the source runs with interrupts disabled, is a
-- function from the state to the state and a result; a failure is `none` or `false` where the source
-- returns NULL or -1. Tables are lists of the source's length, and a pointer into a table is its index.
-- A sum or a difference that the source takes on 32 bits is taken modulo 2 ^ 32 where it can wrap.
-- The count of a semaphore wraps as the int that it is. The other counters of type int (reference counts, readers
-- and writers) are unbounded integers: they would have to reach 2 ^ 31 to differ.
--
-- Where the model stands apart from the code. `pipe_read` and `pipe_write` test the counts of the pipe with
-- interrupts enabled; a pass of Pipe/Round makes these tests in one step with what follows, so a wake-up
-- between a test and `sleep_on` is not seen there (Lock/Mutex/LostWakeup has that gap for the mutex).
-- `vfs_create_file` and `vfs_mkdir` index `inode_table` with a `parent_ino` that no one may have stored: the
-- model reads an unused inode outside of the table, where the source reads other memory, and the link counts are
-- proved for an index inside. Bytes of the heap are kept for each block in use; headers, links and
-- free memory are not bytes of any block, and what a block finds in memory that it takes in is a parameter.
--
-- Bounds and fuel. The scan of `alloc_frames_contiguous` has fuel for MAX_FRAMES + 2 rounds, and each
-- round moves on by at least one frame, so that it ends by itself. A search over a table is a recursion
-- on the number of slots. The loops of `pipe_read` and `pipe_write` run along a list of what the others do
-- between two passes; that enough passes end the call is proved where the bytes or the room are there.
-- The doublings of
-- a capacity in `vfs_write` have fuel 33: behind 32 doublings the number is 0 and stays so.
-- The loops of `sys_brk` and `sys_mmap` count the pages, and the search of `sys_mmap` for a gap gives up after
-- 1000 attempts as in the source. The loop of `ip_checksum` that folds carries has fuel 2, which is enough
-- for 32 bits: what is left fits 16 bits.
-- `proc_create_kernel_thread` calls itself again at most once, and never needs to.
--
-- Not modelled: the system calls that only pass their
-- arguments on; recursive removal, copying, listing and the import of the initrd in vfs.c; the
-- inode chunks, the superblock and formatting in spikefs.c; initrd.c; the ELF loader; DHCP and `net_ping`;
-- drivers, interrupts, start-up, the shell and its programs, which are hardware access, drawing and glue;
-- the C library but for memory; and kernel/lib/tinygl, a copy of another project. Printing is left out
-- everywhere.
pub mod Prelude
pub mod Frames
pub mod Heap
pub mod Wait
pub mod Lock
pub mod Pipe
pub mod Fd
pub mod Process
pub mod Scheduler
pub mod Vfs
pub mod Paging
pub mod Space
pub mod Net
pub mod Input
pub mod Libc
pub mod Spikefs
