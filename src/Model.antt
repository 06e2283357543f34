-- ===== src/Model.antt =====
-- crates/xeneon-agent-core/src/model.rs: the portal's data model and the attention order.
mod Kinds
pub mod Numbering
mod Agent
mod Snapshot
mod Wire
pub mod Order
unfoldable pub use Kinds.*
unfoldable pub use Agent.*
unfoldable pub use Snapshot.*
unfoldable pub use Wire.*
