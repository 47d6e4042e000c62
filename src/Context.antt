-- ===== src/Context.antt =====
-- rust/crates/mcp/src/query_context.rs: the contexts that are put together for an agent.
pub mod Session
pub mod Budget
pub mod Search
pub mod Deep
mod Tests
