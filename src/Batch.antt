-- ===== src/Batch.antt =====
-- crates/mini-agent-core/src/tool_batch_executor.rs: a batch of tool calls.
pub mod Monad
pub mod Record
pub mod Execute
mod Inversion
pub mod Replies
pub mod Settles
pub mod Succeeds
pub mod Recover
pub mod Uncertain
pub mod Recovered
pub mod Durable
