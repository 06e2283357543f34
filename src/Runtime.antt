-- ===== src/Runtime.antt =====
-- crates/xeneon-agent-core/src/runtime.rs: the daemon's state and its handlers.
pub mod State
pub mod Services
pub mod Daemon
pub mod Observation
pub mod Order
pub mod Backend
pub mod Voice
pub mod Collect
pub mod Refresh
pub mod Command
pub mod Steps
unfoldable pub use State.*
unfoldable pub use Services.*
unfoldable pub use Daemon.*
