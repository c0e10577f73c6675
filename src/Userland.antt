-- ===== src/Userland.antt =====
-- kernel/userland.c: programs that run inside the kernel's address space, and what they may call.
pub mod Api
pub mod Exec
pub mod Nesting
pub mod Files
mod Tests
