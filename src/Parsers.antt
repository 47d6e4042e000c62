-- ===== src/Parsers.antt =====
-- rust/crates/parsers: the cutting of texts into chunks.
pub mod Chunking
pub mod Cover
mod Tests
