-- ===== src/Control.antt =====
-- crates/mini-agent-core/src/run_control.rs: cooperative control of a running Turn.
pub mod Run
mod Pending
pub mod Steering
