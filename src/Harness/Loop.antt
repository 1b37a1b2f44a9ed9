-- ===== src/Harness/Loop.antt =====
-- crates/mini-agent-core/src/harness.rs: the run of a Turn, from its prompt to its outcome.
pub mod State
pub mod Ask
pub mod Steer
pub mod Turn
pub mod Start
pub mod Ensures
mod Asked
mod Steered
mod Tooled
mod Rounds
pub mod Resumed
mod Entered
pub mod Outcome
