-- ===== src/Mm.antt =====
-- mm/mm.c: the physical frame allocator and the four-level page tables.
pub mod Frames
pub mod FreeList
pub mod Tree
pub mod Lookup
pub mod Ensured
pub mod Fresh
pub mod Ensure
pub mod Leaf
pub mod Mapping
pub mod MapPage
pub mod Tables
pub mod Spaces
pub mod Init
mod Tests
