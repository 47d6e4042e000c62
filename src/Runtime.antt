-- ===== src/Runtime.antt =====
-- rust/crates/runtime: the daemon between the clients and the worker.
pub mod Framing
pub mod Delivery
pub mod Worker
pub mod Supervision
mod Tests
