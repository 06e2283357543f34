-- ===== src/T3code.antt =====
-- crates/xeneon-agent-core/src/t3code.rs: the read-only T3 Code adapter.
mod Types
pub mod External
pub mod Rows
pub mod Labels
pub mod Classify
pub mod Roster
pub mod Source
pub mod Observe
pub mod Url
unfoldable pub use Types.*
