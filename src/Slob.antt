-- ===== src/Slob.antt =====
-- The SLOB allocator of ulk_slob/slob.c.
pub mod Block
pub mod FreeList
pub mod PageAlloc
pub mod FirstFit
pub mod Carve
pub mod Scan
pub mod Insert
pub mod PageFree
pub mod State
pub mod Model
pub mod Alloc
pub mod Free
pub mod Front
mod Tests
