-- ===== src/Protocol/Tool.antt =====
-- crates/mini-agent-protocol/src/tool.rs: tool specifications, requests and outcomes.
use mini_agent_harness.Prelude.{ℕ, Text, Bool, true, false, Option, List}
use mini_agent_harness.Protocol.Model.{ContextInjectionRecord, ToolExecutionStatus}

pub record ToolSpec (V : Type 0) : Type 0 where
  pub name : Text
  pub description : Text
  pub parameters : V

pub record ToolExecutionContext : Type 0 where
  pub thread_id : Text
  pub turn_id : Text
  pub project_id : Option Text
  pub workspace_id : Option Text
  pub workspace_revision : Option ℕ
  pub session_id : Option Text

-- The cancellation token is a shared flag; the request carries its value when the call is made.
pub record ToolExecutionRequest (V : Type 0) : Type 0 where
  pub call_id : Text
  pub name : Text
  pub arguments : V
  pub context : Option ToolExecutionContext
  pub known_context_injections : List ContextInjectionRecord
  pub cancellation : Option Bool

unfoldable pub is_error : ToolExecutionStatus → Bool
is_error ToolExecutionStatus.completed = false
is_error _ = true

pub record ToolExecutionOutcome : Type 0 where
  pub status : ToolExecutionStatus
  pub content : Text
  pub output_truncated : Bool
  pub context_messages : List Text
  pub context_injections : List ContextInjectionRecord

pub data ToolReplaySafety : Type 0 where
  never safe : ToolReplaySafety

unfoldable pub is_safe : ToolReplaySafety → Bool
is_safe ToolReplaySafety.never = false
is_safe ToolReplaySafety.safe = true
