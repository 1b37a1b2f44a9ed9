-- ===== src/Protocol/Model.antt =====
-- crates/mini-agent-protocol/src/model.rs: messages, model responses and context metadata.
use mini_agent_harness.Prelude.{ℕ, ◌-◌, Text, Bool, Option, none, some, List, leb, if◌then◌else◌}

pub record ModelSelection : Type 0 where
  pub provider_id : Text
  pub model_id : Text

-- The token counts are `u32`.
pub record ModelContextSnapshot : Type 0 where
  pub selection : ModelSelection
  pub context_window_tokens : Option ℕ
  pub max_output_tokens : Option ℕ

-- `checked_sub` is none where the output reserve passes the window.
available_of : Option ℕ → Option ℕ → Option ℕ
available_of (some window) (some output) =
    if leb output window then some (window - output) else none
available_of (some window) none = some window
available_of none _ = none

unfoldable pub available_input_tokens : ModelContextSnapshot → Option ℕ
unfolding available_of
available_input_tokens c = available_of c.context_window_tokens c.max_output_tokens

pub data ReasoningSelection : Type 0 where
  api_default : ReasoningSelection
  level : Text → ReasoningSelection

pub data ToolExecutionStatus : Type 0 where
  completed failed needs_approval deferred retryable cancelled : ToolExecutionStatus

pub record ToolCall (V : Type 0) : Type 0 where
  pub id : Text
  pub name : Text
  pub arguments : V

pub data Message (V : Type 0) : Type 0 where
  context : Text → Message V
  user : Text → Message V
  assistant : Text → Text → List (ToolCall V) → Message V
  tool : Text → Text → Text → Bool → Option ToolExecutionStatus → Message V

-- The token counts are `u64`.
pub record ModelUsage : Type 0 where
  pub input_tokens : ℕ
  pub cached_input_tokens : Option ℕ
  pub output_tokens : ℕ

pub record ModelResponse (V : Type 0) : Type 0 where
  pub reasoning : Text
  pub text : Text
  pub tool_calls : List (ToolCall V)
  pub usage : Option ModelUsage

pub record ModelTiming : Type 0 where
  pub ttft_ms : Option ℕ
  pub response_ms : ℕ

pub record ContextByteBreakdown : Type 0 where
  pub system_prompt : ℕ
  pub project_instructions : ℕ
  pub skills : ℕ
  pub workspace_state : ℕ
  pub conversation : ℕ
  pub tools : ℕ
  pub other : ℕ

pub data ContextInjectionKind : Type 0 where
  project_instructions skill workspace_state other : ContextInjectionKind

pub record ContextInjectionRecord : Type 0 where
  pub id : Text
  pub kind : ContextInjectionKind
  pub source : Text
  pub workspace : Option Text
  pub path : Option Text
  pub scope : Text
  pub bytes : ℕ
  pub fingerprint : Text
  pub supersedes : Option Text
  pub reused : Bool

pub data ModelEvent : Type 0 where
  reasoning_delta text_delta : Text → ModelEvent
