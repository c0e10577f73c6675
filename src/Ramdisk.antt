-- ===== src/Ramdisk.antt =====
-- fs/ramdisk.c: the read-only file system over a tar archive in memory.
pub mod Path
pub mod Tar
pub mod Files
pub mod Members
pub mod Prefix
pub mod Children
pub mod Shown
pub mod Below
pub mod Find
pub mod Listing
pub mod ReadDir
pub mod Bounds
pub mod Terminated
pub mod Normal
mod Tests
