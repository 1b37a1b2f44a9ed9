-- ===== src/Thread.antt =====
-- crates/mini-agent-core/src/thread.rs: a Thread, the Turns it runs and the envelopes it emits.
pub mod State
pub mod Envelopes
pub mod Checkpoints
pub mod Sequences
pub mod Turn
pub mod Turned
pub mod Variants
