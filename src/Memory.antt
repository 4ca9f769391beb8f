-- ===== src/Memory.antt =====
-- kernel/src/memory.c: the memory management of the kernel. Its parts are the map of the dynamic
-- memory, the calls of the buddy allocator with the allocators that are built on them, and the free
-- list of the addresses for memory-mapped devices.
pub mod Mmap
pub mod Dynmem
pub mod Mmio
