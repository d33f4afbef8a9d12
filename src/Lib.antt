-- ===== src/Lib.antt =====
-- A model of the kernel of HugePie, a teaching operating system for MIPS32, and proofs about it.
--
-- Parts and files (paths from the repository's root):
--   Base        tests, lists and signed integers that the other files share; `none` of `Option` is a
--               fault of the C code (a null pointer, an index out of range) or fuel that ran out.
--   Avl         HugePie/kernel/pc/avl.c: the AVL tree of process ids and mailboxes. A tree is a value:
--               each node has one parent, so relinking makes a new tree. `insert`, `delete`, `search`,
--               `minimum` and `maximum` are the functions `avltree_...`; `settle_left` and the like are
--               the code between the recursive call and the last statement of a function.
--   Pid         HugePie/kernel/pc/pid.c: ids of processes in such a tree.
--   Sd          HugePie/kernel/driver/sd.c: block transfers to and from the SD card.
--   Fscache     HugePie/kernel/fs/fscache/fscache.c: write-back buffers with the clock algorithm. The
--               functions `..._4k` and `..._512` are one definition over the number of sectors of a transfer;
--               a transfer longer than the buffer is a fault.
--   Bootmm      HugePie/kernel/mm/bootmm.c: the allocator of whole pages while the system starts. The
--               map of the pages is a list of bytes, `struct bootmm_info info[]` the list of its entries
--               in use; Pages and Search are about `find_pages`, Areas, Infos and Splits about the areas,
--               Record, Alloc and Run about `bootmm_alloc_pages`.
--   Buddy       HugePie/kernel/mm/buddy.c: the buddy allocator. A page is its number in the array `pages`,
--               and a free list is the sequence of the pages linked in it; `raw_free_pages` and
--               `raw_alloc_pages` are `__free_pages` and `__alloc_pages`. Cover counts how often a page
--               lies in a free block, the measure in which the operations are described; Linked says
--               when the field `bplevel` tells which pages are free. The segment tree of the same file
--               is not modelled.
--   FatTable    HugePie/kernel/fs/fat/utils.c: numbers in buffers, the numbers of clusters and sectors, and
--               the entries of the file allocation table in their buffers.
--   Strings     HugePie/utils/utils.c: strings and memory.
--   Time        HugePie/kernel/time/time.c: the clock.
--   Links       doubly linked lists in a heap of nodes, as mail.c and pc.c use them: reads and writes of a node,
--               Chain (the nodes of a list with their addresses), Edit and Unlink (appending and taking out).
--   Mail        HugePie/kernel/pc/mail.c: mailboxes. Queue is one mailbox as a queue, Boxes all of them,
--               Find the look-up in the tree; Run states the calls on abstract queues, Refine compares;
--               Registry has the end of a mailbox.
--   Sched       HugePie/kernel/pc/pc.c: the scheduler. Lists has the task lists, Schedule and Tasks the functions on
--               processes. Walk, Linked, Edit, Append and Move are about the lists; Count says where a process
--               stands; Invariant is what a time slice keeps; Find, Choice, Next and Pick are about the choice of the next
--               process, Age, Drop and Demote about the time of the current one, Keep, Renew and Switch about
--               the change, Slice about `pc_schedule`, Interrupts about any number of time slices, and Boot about `init_pc`.
--
-- How the parts interact: Pid calls Avl; Fscache and FatTable write and read blocks through Sd; `init_buddy`
-- takes its array of pages from Bootmm. Mail keeps its mailboxes in a tree of Avl
-- and its mails in Links; Sched keeps its task lists in Links, its ids in Pid, and calls Mail. Mutable state is passed in and returned.
--
-- Bounds and fuel: an `unsigned int` is a number below 2^32, with `% 2 ^ 32` where the code can wrap.
-- A loop with a known number of rounds is recursion on the rounds that are left. `find_loop` has one unit of
-- fuel for each page and one more, since each round moves on by a page; `level_for` has 32, since an `int`
-- is shifted by at most 31. The theorems on these functions show that the fuel is enough. The walks over task lists take
-- any fuel above the number of processes in all lists plus one; `drain` has
-- five units, as a mailbox has at most four mails.
-- An address is one more than the place in a heap, and 0 is the null pointer; `kmalloc` never fails
-- and never gives an address again, as the calls of `kfree` are commented out.
--
-- Not modelled: assembly, the registers of the machine and of its devices, output to the screen, and the
-- files that only call these. `lockup` and `unlock` never wait, so they have no effect on the calls here.
pub mod Base
pub mod Avl
pub mod Pid
pub mod Sd
pub mod Fscache
pub mod FatTable
pub mod Bootmm
pub mod Buddy
pub mod Strings
pub mod Time
pub mod Links
pub mod Mail
pub mod Sched
