-- ===== src/Memory.antt =====
-- kernel/mem: the block allocator over physical memory.
pub mod Physical
pub mod Heap
