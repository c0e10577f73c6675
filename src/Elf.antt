-- ===== src/Elf.antt =====
-- The ELF64 headers that fs/elf.c and kernel/process.c read, and the checks and the loader of fs/elf.c.
pub mod Headers
pub mod Image
pub mod Bounds
mod Tests
