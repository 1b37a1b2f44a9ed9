-- ===== src/Harness.antt =====
-- crates/mini-agent-core/src/harness.rs: the state of the harness, its history and its forks.
pub mod Config
pub mod History
pub mod Within
pub mod Restored
pub mod Compact
pub mod Shrunk
pub mod Fork
pub mod Compacted
pub mod Forked
pub mod Stream
pub mod Streamed
pub mod Loop
