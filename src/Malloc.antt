-- ===== src/Malloc.antt =====
-- lab6-malloclab: the simulated memory of memlib.c and the allocator of mm.c.
pub mod Bytes
pub mod Memlib
pub mod Heap
pub mod Tags
pub mod FreeList
pub mod Blocks
pub mod Invariant
pub mod Alloc
pub mod Runs
