-- ===== src/Capabilities/Schedule.antt =====
-- crates/mini-agent-capabilities/src/scheduled_task.rs: markers of a delay, and their manager.
pub mod Manager
pub mod Forward
pub mod Markers
