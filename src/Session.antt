-- ===== src/Session.antt =====
-- crates/mini-agent-core/src/session.rs: the conversation state that the execution core owns.
pub mod Groups
pub mod Settled
pub mod Kept
pub mod Complete
pub mod State
pub mod Bytes
pub mod Digest
