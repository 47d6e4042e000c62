-- ===== src/Storage.antt =====
-- rust/crates/storage and rust/crates/parsers/src/common.rs: the tables of the workspace database
-- that the indexer writes, its write path, and the resolution of edges.
pub mod Records
pub mod Tables
pub mod Write
pub mod Resolver
pub mod Cleanup
mod Tests
