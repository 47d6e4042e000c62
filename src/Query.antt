-- ===== src/Query.antt =====
-- rust/crates/mcp/src/query_code.rs: questions about the graph of symbols.
pub mod Nodes
pub mod Known
pub mod Impact
pub mod Path
mod Tests
