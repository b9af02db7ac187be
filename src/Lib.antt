-- ===== src/Lib.antt =====
-- Verification of the kernel of weenix, a small teaching operating system (weenix/kernel).
--
-- The parts of the kernel, and how they interact. Threads are scheduled on queues (proc/sched.c),
-- which kernel mutexes use (proc/kmutex.c). Processes form a tree and wait for their children on
-- such queues (proc/proc.c). A process has a table of open files (fs/file.c, fs/open.c and
-- fs/vfs_syscall.c), whose paths fs/namev.c resolves and whose vnodes (fs/vnode.c) belong to a file
-- system such as fs/ramfs/ramfs.c, and an address space, a list of mapped areas (vm/vmmap.c). The kernel's lists
-- are the ones of include/util/list.h, whose iteration macro puts the loop's body in a do-while of
-- its own, so that a `break` in it goes on to the next element; the models follow that.
--
-- The files.
--  - Common, Common/Tests, Common/Lists and Common/Slices: Boolean tests, lists and the panic monad.
--    `kassert` is the macro KASSERT: `none` is a kernel panic.
--  - Vmmap models weenix/kernel/vm/vmmap.c: an address space is the list of its areas, in the list's
--    order (Vmmap: vmarea_alloc, vmmap_insert, vmmap_lookup, vmmap_is_range_empty and
--    vmmap_find_range; Vmmap/Remove: vmmap_remove; Vmmap/Mapping: vmmap_clone and vmmap_map). Page
--    numbers wrap at 2^32 where the source's do. The children Hits, Order, Range, Remove/Cut,
--    Remove/Loop, Remove/Left, Remove/Unmap, Mapping/Clone and Mapping/Fixed hold the proofs.
--  - Sched models weenix/kernel/proc/sched.c: the state of each thread, the members of each queue in
--    the list's order, and the current thread. Threads and queues are numbers, queue 0 is kt_runq.
--    Sched/Queues has the proofs on queues, Sched/Valid the invariant, Sched/Wake those on
--    sched_wakeup_on, sched_broadcast_on and sched_cancel, Sched/Switch those on sched_switch and the
--    two sleeps.
--  - Kmutex models weenix/kernel/proc/kmutex.c; Kmutex/Owners relates it to a queue of owners.
--  - Proc models weenix/kernel/proc/proc.c (Proc: _proc_getid, proc_create, proc_lookup, proc_cleanup;
--    Proc/Wait: do_waitpid). Proc/Pid, Proc/Create and Proc/Tree hold the proofs.
--  - Files models weenix/kernel/fs/file.c, get_empty_fd of weenix/kernel/fs/open.c, and do_close,
--    do_dup and do_dup2 of weenix/kernel/fs/vfs_syscall.c; Files/Seek models do_lseek there, and
--    Files/Io do_read, do_write and do_getdent over the operations of the vnodes, the record `Vnodes`.
--    Files/Open models do_open of weenix/kernel/fs/open.c, over the path resolution of Paths.
--    Files/Refs, Files/Calls, Files/Seek, Files/Ends, Files/Transfer, Files/Fresh and Files/Opened hold
--    the proofs.
--  - Paths models weenix/kernel/fs/namev.c over the operations of a file system, the interface `Fs`, and
--    the counts of vref and vput of weenix/kernel/fs/vnode.c. Paths/Calls and Paths/Link model the
--    calls of weenix/kernel/fs/vfs_syscall.c that take paths. The state is the count of each vnode and
--    what the file system keeps. Paths/Slashes, Paths/Resolve, Paths/Balance and Paths/Shared hold the
--    proofs.
--  - Ramfs models weenix/kernel/fs/ramfs/ramfs.c, and vget and vput of weenix/kernel/fs/vnode.c for its
--    vnodes: the inodes and the vnodes by number (Ramfs: the state, the allocation of inodes and the
--    search of entries; Ramfs/Calls: lookup, create, mknod, mkdir, link, unlink and rmdir;
--    Ramfs/Data: read, write, readdir, stat and the mount). Whether kmalloc and page_alloc find memory
--    are parameters. Ramfs/Names treats entries as a map from names; Ramfs/Keeps, Ramfs/Places,
--    Ramfs/Additions, Ramfs/Counts, Ramfs/Removals, Ramfs/References and Ramfs/RoundTrip hold the other
--    proofs. Ramfs/AsFs fills the interface `Fs` of Paths with these operations.
--  - Page models weenix/kernel/mm/page.c: the groups of pages, each with the free lists and the bit maps
--    of its buddies (Page/Buddy: one group; Page/Create: a new range; Page: the calls). Pages go by their
--    numbers. Page/Sums and Page/Valid state the invariant of a group; Page/Steps, Page/Twins, Page/Take
--    and Page/Join hold the proofs on one group, Page/Walk, Page/Count, Page/Alloc, Page/Release,
--    Page/Blocks, Page/Maps, Page/Fill and Page/Ranges those on all of them. `slab_allocators_reclaim` is a parameter.
--  - Slab models weenix/kernel/mm/slab.c (Slab: the sizes of slabs; Slab/Objects: the objects, the growth and
--    the reclaim; Slab/Create: the allocators;
--    Slab/Kmalloc: kmalloc and kfree), with pages from Page: an allocation that finds none calls
--    the reclaim after it. Slab/Size, Slab/Chain, Slab/Grow, Slab/Sizes,
--    Slab/Reclaim and Slab/ReclaimAll hold the proofs.
--  - Kshell models the tokenizer of weenix/kernel/test/kshell/tokenizer.c; Kshell/Tokens holds the proof.
--  - Strings models the C functions of weenix/kernel/util/string.c on memory as a list of bytes;
--    Strings/Contents and Strings/Search hold the proofs.
--  - Tests: concrete runs, a module for each part.
--
-- Bounds and fuel. `getid` of Proc has 65536 passes, one for each pid up to PROC_MAX_COUNT; the
-- source's loop gives up when it has come round to its first pid. `broadcast` of Sched has as many
-- passes as the queue has threads, and each takes one off. The loops of sched_switch and do_waitpid
-- that wait for others run over a list of what the others will do; their results hold for every such
-- list. `walk` of Paths has one round more than the path has characters, and each round shortens what
-- is left. A path stands at an address above 2^31, where the kernel is. `free_inode` of Ramfs runs
-- over the 64 inodes of a file system. `page_join` of Page
-- runs up from an order below 7 and has as many rounds as there are orders above, `search` one for each
-- order, and `put_largest` one for each block of 128 pages. `slab_obj_alloc`
-- has two rounds: a new slab has a free object. The other loops are recursions on the list that the source
-- walks. A page of Ramfs has 4096 bytes, or 128 entries.
--
-- Not modelled: the switch of contexts and the interrupt priority level, which belong to the hardware
-- (a sleep ends with the new current thread, an interrupt is the queue that its handler wakes); page
-- frames and the memory objects behind an area, so reading and writing through a map; the
-- drivers, the umount of ramfs, the file system on disk, much of it not
-- written yet (Paths takes any file system as a parameter), the boot code, the system call and ELF
-- glue, the rest of the kernel shell, and the programs of user space. Debug output, and the
-- patterns that page.c and slab.c fill free memory with, have no counterpart.
pub mod Common
pub mod Vmmap
pub mod Sched
pub mod Kmutex
pub mod Proc
pub mod Files
pub mod Paths
pub mod Ramfs
pub mod Kshell
pub mod Page
pub mod Strings
pub mod Tests
pub mod Slab
