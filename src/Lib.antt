-- ===== src/Lib.antt =====
-- The kernel of an operating system for several processors, in C on the abstract machine AM
-- (kernel/src). Its parts: the lock words (lock.c); the buddy allocator, which hands out pages to the
-- slab allocator and the heap (tbma.c); threads, spin locks and semaphores (kmt.c); user processes
-- and their memory (uproc.c); the dispatch of traps (os.c); devices (dev).
--
-- Prelude holds the shared names and lemmas; its Runs has the type Outcome of a run of C code: a
-- value, a stop (a failed assertion, a panic, an access that C leaves undefined), or a wait: a
-- spin on a lock that is held, a semaphore at 0, a loop without an end. Numbers are
-- natural numbers; where the source can wrap, % 2 ^ w is written out.
--
-- Align: align_to and is_align_to of kernel/src/lock.c.
--
-- Buddy: kernel/src/tbma.c. A tree is its array of nodes as a function; Buddy.antt has the functions
--   on one tree, by recursion on the exponent of the block, from 24 down to 12, which is enough fuel
--   for a tree of 13 levels. Buddy/System has the trees and their locks with bbma_alloc and bbma_free,
--   Buddy/Init the initialisation, whose loop has fuel for 34 trees, one more than all_trees has
--   entries. Buddy/Blocks is the abstract view, a block free, used or split in halves; Buddy/Rep says
--   when the nodes of an array stand for a block, Buddy/State when all trees do. Buddy/Spot relates
--   indices and addresses. Buddy/Alloc and Buddy/Free are about one tree, Buddy/Locks about the
--   search over the trees, Buddy/Service, Buddy/Apart and Buddy/Release about whole calls. A call is
--   one step: other processors show as locks that are held.
--
-- Kmt: kernel/src/kmt.c. Kmt/Spin has the spin locks with the interrupt nesting of a processor;
--   Kmt/Spin/Nest is about one operation, Kmt/Spin/Held about all processors, interleaved by a step
--   relation. Kmt/Sem has the semaphores, over the spin locks, with AM's yield as a
--   parameter. Kmt/Schedule has kmt_create, kmt_context_save and kmt_schedule; its loop is recursion
--   on task_cnt * 10, the bound of the source, over the values that rand gives. In
--   Kmt/Schedule/Interleave the processors go turn by turn, each turn under the status lock of its task.
--
-- Uproc: kernel/src/uproc.c. Uproc/Areas has the list of memory areas of a task, Uproc/Pages the list
--   of mapped pages and the counts of copy on write, Uproc/Mmap kmmap. The page table and AM's map are
--   parameters. The loop of delete_mapping has one unit of fuel more than there are bytes in its
--   range, which is enough for any page size above 0. List nodes are taken to be allocated.
--
-- Irq: os_on_irq and os_trap of kernel/src/os.c, the handlers as parameters.
--   Irq/Order is about the order of the list, Irq/Trap about what a trap makes of the handlers' answers.
--
-- Slab: kernel/src/slab.c, with kalloc and kfree of kernel/src/pmm.c, over any allocator of pages that
--   keeps the laws of PageSource (Slab/Grant); Slab/Buddies proves them of the buddy allocator. The
--   words of the memory are functions of their address, the sticks apart from the free blocks, as
--   they never overlap. Slab/State says when pages and lists are sound, Slab/Classes has the seven
--   sizes, Slab/Fresh a new page, Slab/Find the search, Slab/Request a page that is added, Slab/Spin one
--   that seems to be locked, Slab/Service and Slab/Free whole calls. The search has fuel for one page
--   more than the longest list, with the page that may be added.
--
-- Disk: kernel/src/dev/dev_sd.c; the disk of AM is a byte at each place, of which blk_read and
--   blk_write move one block; Disk/Mask is about the mask of ROUNDDOWN, Disk/Places
--   about the rounds, Disk/Read and Disk/Rounds about the loops. The loops have fuel for one
--   round more than there are bytes, and each round moves a byte or more.
--
-- Klib: abstract-machine/klib/src/string.c. Klib/Copy is about the functions on memory, Klib/Str and
--   Klib/Compare about those on strings, whose loops have fuel for the characters and the '\0'.
--
-- Input: kernel/src/dev/dev_input.c. Input/Events is the ring of events between the keyboard and its
--   readers, Input/Keymap the table of keys, Input.antt input_keydown; Input/History and
--   Input/Modifiers say what a history of key events comes to, Input/Letters what a letter key does.
--
-- Tty: kernel/src/dev/dev_tty.c. Tty/Cook is the queue of typed characters, with the line discipline
--   that it stands for in Tty/Cook/Lines; the loop of tty_read has fuel for the 1024 places of the
--   ring, which is enough since a complete line ends in it. Tty/Screen is the buffer of the screen
--   with its marks, Tty/Render the sprites that tty_render makes of it and what fb_write
--   (kernel/src/dev/dev_video.c) draws of them. What the graphics device does with a tile is not
--   modelled; Tty/Render/Canvas takes the last tile at a place to be the one that is seen.
--
-- Not modelled: the start of pmm.c, the life of processes (fork, wait, exit), the tasks of the
-- devices, AM itself, most of klib, and the small projects beside the kernel.
pub mod Prelude
pub mod Align
pub mod Buddy
pub mod Uproc
pub mod Kmt
pub mod Irq
pub mod Input
pub mod Tty
pub mod Disk
pub mod Klib
pub mod Slab
