-- ===== src/Memory.antt =====
-- rust/crates/mcp/src/memory.rs, hooks.rs and storage_tools.rs: what an agent remembers.
pub mod Store
pub mod Inbox
pub mod Operations
pub mod Rows
pub mod Extraction
pub mod Consolidate
pub mod Todo
mod Tests
