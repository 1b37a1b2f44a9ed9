-- ===== src/Input.antt =====
-- crates/mini-agent-core/src/input.rs: the bounded queue of inputs that wait for a running Turn.
pub mod Queue
pub mod Bounds
pub mod Fifo
