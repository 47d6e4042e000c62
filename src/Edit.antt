-- ===== src/Edit.antt =====
-- mcp/src/edit.rs: the exact replacement of a text in a file of the workspace.
pub mod Files
pub mod Event
pub mod Replace
pub mod Finding
pub mod Hooks
pub mod Exact
mod Tests
