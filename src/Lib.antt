-- ===== src/Lib.antt =====
-- Verification library of the PbOS kernel: its red-black tree, dynamic array, linked list and hash
-- set, the file nodes and paths, the scanner of format specifiers and the string hash, the allocator
-- of memory pools, the records of mapped areas, physical pages, process numbers, the simple
-- scheduler, and its mutexes.
--
-- The parts and how they interact. `kfxx::RBTree` is the map that the kernel's managers are built
-- on: a memory context keeps its VMRs in one (keyed by address), the process manager its processes
-- (by number) and each process its threads. The memory manager and the process manager take
-- mutexes, which stand on the spin lock of the machine; the scheduler walks the sets of processes
-- and threads; the allocator of pools keeps the blocks and pages of a pool in four. The model of
-- each client is written over the ordered contents of a tree, the interface of `Kfxx.Ordered`, and
-- `Kfxx.Rbtree` shows that searches, insertion, removal and walks keep to that interface. A
-- directory keeps its children in a hash set of pairs, whose buckets are linked lists; a path is
-- resolved through `fs_child_of`, which asks the file system for what the directory does not hold.
--
-- Which file models what:
--   Kfxx/Ordered     what a client of the tree sees: the list of keys and payloads in order
--   Kfxx/Rbtree      include/pbos/kfxx/rbtree.hh and kernel/kfxx/rbtree.cc: `_get`, `_get_slot`,
--                    `_find_max_lteq`, `_insert`, `_insert_fixup`, the rotations
--   Kfxx/Rbtree/Remove   `_remove_fixup` of kernel/kfxx/rbtree.cc and `remove`
--   Kfxx/Rbtree/Walk   `_get_next` and `_get_prev` of kernel/kfxx/rbtree.cc, and an iterator's loop
--   Kfxx/Rbtree/Clear  `clear` of include/pbos/kfxx/rbtree.hh
--   Kfxx/Dynarray    include/pbos/kfxx/dynarray.hh, at an element type that is trivial
--   Kfxx/List        include/pbos/kfxx/list.hh, on a memory of nodes under their addresses
--   Kfxx/Hashset     include/pbos/kfxx/hashset.hh, where hashing and comparing do not fail; a bucket is
--                    the list that `Kfxx.List` shows a linked list to stand for
--   Fs/Node          kernel/fs/file.cc and include/pbos/fs/file.hh: nodes, counted pointers,
--                    `fs_child_of`
--   Fs/Path          kernel/fs/file.cc: `fs_resolve_path`
--   Fs/Files         kernel/fs/file.cc: making, naming, linking, mounting, unmounting, opening
--   Fs/Rootfs        kernel/fs/rootfs.cc: what the root file system answers
--   Fmtctl           lib/fmtctl/fmtctl.c: `fmtctl_parse`
--   Kf/Hash          kernel/kf/hash.cc: `kf_djb_hash32` and `kf_djb_hash64`
--   Mm/Kima/Slots    kernel/mm/kima/ublk.cc and vpgdesc.cc: the descriptors and their pages
--   Mm/Kima/Pages, Mm/Kima/Place, Mm/Kima/Alloc   kernel/mm/kima/malloc.cc: references of pages, the
--                    search for a place between the blocks, `kima_alloc` and `kima_free`
--   Mm/Context, Mm/Vmr   kernel/mm/misc.cc: `mm_mmap`, `mm_unmmap`, `mm_merge_mapped_area`,
--                    `mm_split_mapped_area`, `mm_set_page_access`, `mm_vmalloc`
--   Mm/Probe         kernel/mm/misc.cc: `mm_probe_and_lock_pages` and `mm_unlock_pages`
--   Mm/Pgalloc       kernel/mm/pgalloc.cc: the references and the free lists of physical pages
--   Hal/Spinlock     hal/x86_64/kf/spinlock.cc, arch/x86_64/atomic.h, include/pbos/hal/spinlock.h
--   Ps/Pid           kernel/ps/proc.cc: `ps_create_proc`, and `ki_destroy_proc` under the lock
--   Ps/Sched         kernel/ps/sched/simploop.c and the walks of kernel/ps/sched.cc
--   Ps/Mutex, Ps/RecMutex, Ps/RwMutex   kernel/ps/mutex.cc: `ps_mutex_t`, `ps_rec_mutex_t` and
--                    `ps_rw_mutex_t`, the last as turns that threads take one atomic operation each
-- A tree is its nodes with the children; the parent pointers are the path of frames that a walk
-- leaves behind. A context, a process table and a mutex are records with the source's fields. A
-- panic, an assertion that fails and a null pointer that is used are values of the results. Words
-- of 64 bits wrap where the source adds addresses and sizes.
--
-- Bounds and fuel. The loop of `_remove_fixup` gets one round more than the path above the node is
-- long: a round goes on at the parent, or turns a red sibling away and then ends at most one frame
-- deeper, and the theorem on removal shows that a result comes out. The searches for a free process
-- number get as many rounds as there are numbers between their ends, so they end as the source's
-- loops do. The search for a place between blocks gets one round more than there are blocks, since
-- each round but the last passes the end of one more block; the walk over the pages gets two rounds
-- for each page and one more, since each page is passed once by the iterator and once by
-- `continuous_area_base`. The walks of a probe and of its undoing get as many rounds as there are
-- areas, and the loop of `clear` two for each node, which is passed at most once on the way down and
-- once on the way up. The loop over a path has the bytes that are left as its measure, and `clear` of
-- a linked list gets as many rounds as the list's length says.
--
-- What stands for code outside a model. The page tables are the interface `Paging`, how the calls
-- of the pool of VMRs end are arguments (with memory, without, or in a panic), the operations of a file system are the interface `FileSystemOps`, with
-- the law `LooksUp`, what `kima_vpgalloc` and the allocator of an array answer are arguments,
-- PBOS_ISOVERLAPPED (which is defined nowhere in the repository) is a parameter with the laws
-- `IsOverlap`, and the clients of a spin lock take `SpinlockOps`, which a
-- theorem instantiates with the lock of hal/x86_64. A context is never null here.
--
-- Not modelled: comparators that fail, the tree's size and its cached ends; arrays of elements with
-- constructors; `kima_realloc`, `kima_realloc_in_place` and how a pool starts and ends; reading,
-- writing and file contexts; devices and loaders, which are further components; start-up code,
-- drivers and logging, which are input and output; lib/freestdc, which is a library of its own.
pub mod Common
pub mod Fmtctl
pub mod Fs
pub mod Hal
pub mod Kf
pub mod Kfxx
pub mod Mm
pub mod Ps
