-- ===== src/Host/Goal.antt =====
-- crates/mini-agent-host/src/goal.rs: the goal that a session works on by itself, Turn after Turn.
pub mod State
pub mod Verdict
pub mod Files
pub mod Update
pub mod Store
pub mod Durable
pub mod Begun
pub mod Stops
pub mod Budget
pub mod Runs
pub mod Reports
