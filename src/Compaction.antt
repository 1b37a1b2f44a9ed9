-- ===== src/Compaction.antt =====
-- crates/mini-agent-core/src/context_controller.rs: when a context is compacted, and how.
pub mod Waterline
pub mod Parts
pub mod Shrink
pub mod Fit
pub mod Partition
pub mod Groups
pub mod Replay
pub mod Opened
pub mod Carried
