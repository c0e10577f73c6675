-- ===== src/Process.antt =====
-- kernel/process.c and the syscall entry of syscall/syscall.c.
pub mod Types
pub mod User
pub mod Table
pub mod Memory
pub mod Load
pub mod Files
pub mod Life
pub mod Dispatch
pub mod Invariant
pub mod Calls
pub mod Positions
pub mod Images
pub mod Forked
pub mod Exited
pub mod Cleared
pub mod Changes
pub mod Endings
pub mod Lifecycle
pub mod Sound
pub mod Pids
pub mod Reach
pub mod Descriptors
pub mod Waiting
pub mod Segments
mod Tests
