-- ===== src/Herdr.antt =====
-- crates/xeneon-agent-core/src/herdr.rs: the client of the Herdr sessions.
mod Types
pub mod Json
pub mod Wire
pub mod Actions
pub mod Client
pub mod Observe
unfoldable pub use Types.*
