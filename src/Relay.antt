-- ===== src/Relay.antt =====
-- rust/crates/ctl/src/relay.rs: the board of lanes by which agents lock, hand over and reserve work.
pub mod Board
pub mod Paths
pub mod Zombie
pub mod Operations
pub mod Exclusion
pub mod Invariant
pub mod Lease
pub mod Run
pub mod Claims
pub mod Lock
pub mod Concurrent
mod Tests
