-- ===== src/Protocol.antt =====
-- crates/mini-agent-protocol/src: the data that the other parts exchange. `serde_json::Value` is
-- the parameter `V` of the types that hold tool arguments.
mod Model
mod Tool
mod Turn
pub mod Same
mod Events
mod Limits
mod Codec
pub mod Injection
pub mod Outcome
pub use Model.*
unfoldable pub use Tool.*
pub use Turn.*
unfoldable pub use Events.*
pub use Limits.*
pub use Codec.*
