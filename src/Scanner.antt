-- ===== src/Scanner.antt =====
-- rust/crates/scanner: which files of a workspace belong in the index.
pub mod Yaml
pub mod Filters
pub mod Roots
pub mod Settings
pub mod Finder
mod Tests
