-- ===== src/Protocol/Events.antt =====
-- crates/mini-agent-protocol/src/event.rs: what an observer sees of a run.
use mini_agent_harness.Prelude.{ℕ, Text, Bool, Option, none, List}
use mini_agent_harness.Protocol.Limits.{LimitExceeded, StopReason}
use mini_agent_harness.Protocol.Model.{
  ContextByteBreakdown, ContextInjectionRecord, ModelContextSnapshot, ModelTiming, ModelUsage,
  ToolCall, ToolExecutionStatus,
}
use mini_agent_harness.Protocol.Turn.{TurnInputMode, TurnStatus}

pub record SkillLoadRecord : Type 0 where
  pub name : Text
  pub qualified_name : Option Text
  pub source : Text
  pub group : Option Text

pub data SkillLoadPhase : Type 0 where
  started loaded : SkillLoadPhase

pub data RunFailure : Type 0 where
  model compaction : RunFailure
  limit_exceeded : LimitExceeded → RunFailure

pub data Event (V : Type 0) : Type 0 where
  turn_started : TurnInputMode → Text → Event V
  skills_loaded : SkillLoadPhase → Option Text → List SkillLoadRecord → Event V
  skills_load_failed : Option Text → List Text → Text → Event V
  skill_group_activated : Text → Text → Event V
  context_injected : List ContextInjectionRecord → Event V
  run_started : Text → Event V
  -- step, input bytes, input hash, tool manifest hash
  model_started : ℕ → ℕ → Text → Text → Event V
  assistant_reasoning_delta : Text → Event V
  assistant_text_delta : Text → Event V
  model_responded :
      Text
      → Text
      → List (ToolCall V)
      → Option ModelUsage
      → Option ModelTiming
      → Option ContextByteBreakdown
      → Option ModelContextSnapshot
      → Event V
  tool_started : ToolCall V → Event V
  -- call id, name, arguments, content, is_error, truncated, outcome
  tool_finished : Text → Text → V → Text → Bool → Bool → Option ToolExecutionStatus → Event V
  context_compaction_started : ℕ → Event V
  context_compaction_finished : ℕ → ℕ → Option ModelUsage → Event V
  run_finished : StopReason → ℕ → Event V
  turn_finished : TurnStatus → Event V
  run_failed : RunFailure → Event V

pub data TurnSource : Type 0 where
  child_wakeup session_resume : TurnSource

pub record EventEnvelope (V : Type 0) : Type 0 where
  pub thread_id : Text
  pub turn_id : Option Text
  pub sequence : ℕ
  pub item_id : Option Text
  pub turn_source : Option TurnSource
  pub event : Event V

unfoldable pub new_envelope : {V : Type 0} → Text → Option Text → ℕ → Event V → EventEnvelope V
new_envelope thread_id turn_id sequence event = record {
  thread_id = thread_id;
  turn_id = turn_id;
  sequence = sequence;
  item_id = none;
  turn_source = none;
  event = event;
}
