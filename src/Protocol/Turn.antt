-- ===== src/Protocol/Turn.antt =====
-- crates/mini-agent-protocol/src/turn.rs: inputs, and the states of Threads and Turns.
use mini_agent_harness.Prelude.{Text, Bool, true, false, Option, none, List, []}
use mini_agent_harness.Protocol.Model.{ModelSelection, ReasoningSelection}

pub data TurnInputMode : Type 0 where
  start start_if_idle steer follow_up : TurnInputMode

-- The code's tests `mode == Steer`, `mode == FollowUp` and `matches!(mode, Start | StartIfIdle)`.
abbrev pub is_steer : TurnInputMode → Bool
is_steer TurnInputMode.steer = true
is_steer _ = false

abbrev pub is_follow_up : TurnInputMode → Bool
is_follow_up TurnInputMode.follow_up = true
is_follow_up _ = false

abbrev pub is_start : TurnInputMode → Bool
is_start TurnInputMode.start = true
is_start TurnInputMode.start_if_idle = true
is_start _ = false

pub data TurnWorkflowKind : Type 0 where
  skill_group : TurnWorkflowKind

pub data TurnWorkflowMode : Type 0 where
  auto : TurnWorkflowMode

pub record TurnWorkflow : Type 0 where
  pub kind : TurnWorkflowKind
  pub id : Text
  pub mode : TurnWorkflowMode

pub record TurnInput : Type 0 where
  pub mode : TurnInputMode
  pub text : Text
  pub selected_skills : List Text
  pub workflow : Option TurnWorkflow
  pub model_selection : Option ModelSelection
  pub reasoning_selection : Option ReasoningSelection
  pub reasoning_effort : Option Text
  pub steer_request_id : Option Text

unfoldable pub new_input : TurnInputMode → Text → TurnInput
new_input mode text = record {
  mode = mode;
  text = text;
  selected_skills = [];
  workflow = none;
  model_selection = none;
  reasoning_selection = none;
  reasoning_effort = none;
  steer_request_id = none;
}

pub data ThreadStatus : Type 0 where
  idle running awaiting_input failed closed : ThreadStatus

pub data TurnStatus : Type 0 where
  in_progress completed step_limit steered cancelled failed : TurnStatus
