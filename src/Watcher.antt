-- ===== src/Watcher.antt =====
-- rust/crates/watcher: the indexer of a workspace, and the watch over its files.
pub mod Naming
pub mod Index
pub mod Watch
mod Tests
