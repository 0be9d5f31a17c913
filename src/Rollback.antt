-- ===== src/Rollback.antt =====
-- engine/rollback: bounded command history with authoritative reconciliation.
pub mod Types
pub mod Keyed
pub mod Journal
pub mod Resolve
pub mod Timeline
pub mod Calls
pub mod AuthorityOnly
pub mod Invariant
pub mod Router
mod Tests
