-- ===== src/Text.antt =====
-- Text processing: include/string.hxx and src/string.cxx.
pub mod Chars
pub mod Strip
pub mod Split
mod Tests
