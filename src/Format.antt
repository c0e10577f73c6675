-- ===== src/Format.antt =====
-- lib/format.c: formatted output.
pub mod Sink
pub mod Printf
pub mod Text
pub mod Numbers
pub mod Renders
mod Tests
