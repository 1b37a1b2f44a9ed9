-- ===== src/Protocol/Limits.antt =====
-- crates/mini-agent-protocol/src/lib.rs, module `run`: limits and stop reasons.
use mini_agent_harness.Prelude.{ℕ}

pub data LimitKind : Type 0 where
  context_item_bytes user_input_bytes model_response_bytes : LimitKind
  tool_calls_per_step tool_output_bytes context_bytes : LimitKind

pub record LimitExceeded : Type 0 where
  pub kind : LimitKind
  pub limit : ℕ
  pub actual : ℕ

pub data StopReason : Type 0 where
  completed step_limit steered cancelled : StopReason
