-- ===== src/Lib.antt =====
-- RubberOS, an operating system kernel for x86-64 in C: models of its libraries and of the parts of
-- the kernel that compute, with the theorems that make them correct.
--
-- The parts, and the files that model them:
--   * libbuddy/src/buddy.c, the buddy allocator of the physical memory: Buddy. buddy_init is
--     Buddy.Init.init, buddy_alloc_slice is alloc_slice, buddy_dealloc is dealloc; the bitmaps of the
--     free blocks are Buddy.Bits. Buddy.Invariant states what holds between two calls.
--   * kernel/src/drivers/ps2_keyboard.c and ps2_mouse.c, the drivers that turn bytes into events:
--     Ps2.Keyboard and Ps2.Mouse. The interrupt handler puts the bytes in a queue; the main loop
--     feeds them to ps2_keyboard_put_byte, and the key events to ps2_keyboard_process_keyevent.
--   * libcoll/src/ringbuffer.c, a queue in a fixed array: RingBuffer. kernel/src/interrupt.c keeps the
--     messages of the interrupt handlers in one: Interrupt.
--   * libcoll/src/linkedlist.c and singlylist.c, the intrusive lists: LinkedList and SinglyList, each on
--     a heap of links.
--   * libcoll/src/arraylist.c, a growing array of bytes: ArrayList. Its memory comes from an allocator of
--     the caller; the kernel's is in Memory.Dynmem.
--   * libcoll/src/rbtree.c, the red-black tree: RbTree, on a heap of nodes, with the balancing in
--     RbTree.Balance.
--   * kernel/src/gui/shapes.c and graphic.c, rectangles and the drawing of pixels, rectangles and text
--     on a clipped surface: Gui.Shapes and Gui.Graphic.
--   * kernel/src/gui/window.c, the window manager's mouse, hit test and dragging: Gui.Window. Its areas
--     to be drawn again are rectangles of Gui.Shapes.
--   * kernel/src/gui/tty_window.c, the text of the terminal window: Gui.TtyWindow.
--   * kernel/src/arch/x86_64/memory.c, the translation of the addresses of the dynamic memory and the
--     iterator over pages: Paging. pagetable_mmio_unmap is in Paging.Unmap.
--   * kernel/src/memory.c: Memory. Memory.Mmap is construct_mmap_dyn, which makes the map of the dynamic
--     memory that Paging reads; Memory.Dynmem is the dynamic memory over the allocator of Buddy, with
--     what the slabs and the array lists get of it; Memory.Mmio is the free list of the addresses for
--     devices, whose release takes its pages out of the page tables of Paging.Unmap.
--   * libslab/src/slab.c, the slab allocator: Slab, over the links of LinkedList and the bytes of
--     Freec.Memory.
--   * libfreec/src/stdlib.c, the heapsort of which construct_mmap_dyn makes use: Freec.Sort.
--   * libfreec/include/freec/stdlib.h: Freec, and max_ℤ and min_ℤ of Base.Int. libfreec/src/string.c:
--     Freec.Memory.
--
-- A C struct is a record, an operation is a function from the old state to the new one, and `none`
-- is a failed assertion, a panic, or behaviour that C leaves undefined. Addresses and sizes are
-- natural numbers, with the wrap of a narrower type written out where it can occur. An `int` is an
-- integer of Base.Int: C leaves its overflow undefined. The fills of Gui.Graphic are `none` on an
-- overflow; elsewhere a program that meets one is outside of the model.
--
-- Fuel: the loops of buddy_init halve a size_t, so 64 rounds are enough; bitmap_index_for_size
-- shifts 4096 within a size_t, 52 times at most. The outer loop of sort lowers the start or the end of
-- the heap in every round, and the inner one moves down the heap. page_init goes on by a slot in every
-- round, so 4096 rounds are enough for a page. pagetable_mmio_unmap goes on by a page at least in
-- every round. The fuel of the operations on the red-black tree is an argument: rbtree_find needs more
-- of it than the tree has nodes.
--
-- Not modelled: libfreec/src/snprintf.c (third-party), assembly, port and screen output, the spin
-- locks, the drawing of windows, and of the page tables all but pagetable_mmio_unmap.
pub mod Base
pub mod Freec
pub mod Ps2
pub mod Buddy
pub mod RingBuffer
pub mod Interrupt
pub mod LinkedList
pub mod SinglyList
pub mod Gui
pub mod Paging
pub mod Memory
pub mod Slab
pub mod RbTree
pub mod ArrayList
