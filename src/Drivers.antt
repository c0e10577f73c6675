-- ===== src/Drivers.antt =====
-- drivers/: the keyboard and the serial line.
pub mod Keyboard
pub mod Typing
pub mod Console
pub mod Lines
pub mod Log
mod Tests
