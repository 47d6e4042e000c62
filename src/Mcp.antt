-- ===== src/Mcp.antt =====
-- rust/crates/mcp/src/protocol.rs, catalog.rs and hooks.rs: the tool server's messages.
pub mod Json
pub mod Catalog
pub mod Guards
pub mod Protocol
mod Tests
