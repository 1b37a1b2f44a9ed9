-- ===== src/Tools.antt =====
-- crates/mini-agent-core/src: the tool router, the tool batches, and the truncation of outputs.
pub mod Truncate
pub mod Utf8
pub mod Cuts
pub mod Halves
pub mod Router
pub mod Hidden
pub mod Named
