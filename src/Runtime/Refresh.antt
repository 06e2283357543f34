-- ===== src/Runtime/Refresh.antt =====
-- `refresh_agents` of crates/xeneon-agent-core/src/runtime.rs: one collection of the roster from
-- the manager that the daemon observes.
pub mod Subscriptions
mod Sessions
pub mod Commit
unfoldable pub use Subscriptions.*
unfoldable pub use Sessions.*
unfoldable pub use Commit.*
