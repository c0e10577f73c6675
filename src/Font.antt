-- ===== src/Font.antt =====
-- drivers/font_ttf.c: the tables of a TrueType font.
pub mod Reads
pub mod Tables
pub mod Glyphs
pub mod Parse
pub mod Inside
pub mod Located
pub mod Sound
pub mod Lookups
mod Tests
