-- ===== src/Shell.antt =====
-- kernel/shell.c: the shell inside the kernel.
pub mod Commands
pub mod Line
pub mod Buffer
pub mod Editing
pub mod Defined
mod Tests
