-- ===== src/Host.antt =====
-- crates/mini-agent-host/src: what the host keeps of a session beside its history.
pub mod Goal
