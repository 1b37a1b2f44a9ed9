-- ===== src/Capabilities.antt =====
-- crates/mini-agent-capabilities/src: what the tools of the host can do.
pub mod Schedule
