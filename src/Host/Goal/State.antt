-- ===== src/Host/Goal/State.antt =====
-- crates/mini-agent-host/src/goal.rs: the data of a goal, and what each operation makes of it.
-- Token counts are `i64` in the source and natural numbers here: no operation makes a negative one.
use mini_agent_harness.Prelude.{
  ℕ, ◌+◌, ◌-◌, ◌^◌, Text, Bool, true, false, Option, none, some, codes, min, leb, ◌==◌, text_eq,
  ◌&&◌, if◌then◌else◌,
}
use mini_agent_harness.Protocol.{ModelSelection}

pub record GoalLimits : Type 0 where
  pub max_loops : ℕ
  pub milestone_step_budget : ℕ
  pub milestone_timeout_secs : ℕ

pub data GoalStatus : Type 0 where
  running converged failed user_paused usage_limited budget_limited : GoalStatus

unfoldable pub is_running : GoalStatus → Bool
is_running GoalStatus.running = true
is_running _ = false

unfoldable pub is_user_paused : GoalStatus → Bool
is_user_paused GoalStatus.user_paused = true
is_user_paused _ = false

pub data GoalVerificationStatus : Type 0 where
  idle running completed failed : GoalVerificationStatus

unfoldable pub is_verifying : GoalVerificationStatus → Bool
is_verifying GoalVerificationStatus.running = true
is_verifying _ = false

pub record GoalState : Type 0 where
  pub schema_version : ℕ
  pub goal_id : Text
  pub objective : Text
  pub status : GoalStatus
  pub current_milestone : ℕ
  pub total_milestones : ℕ
  pub loop_count : ℕ
  pub max_loops : ℕ
  pub milestone_step_budget : ℕ
  pub milestone_timeout_secs : ℕ
  pub verifier_model : Option Text
  pub verifier_model_selection : Option ModelSelection
  pub last_verifier_score : Option ℕ
  pub token_budget : Option ℕ
  pub tokens_used : ℕ
  pub created_at_ms : ℕ
  pub updated_at_ms : ℕ
  pub active_turn_id : Option Text
  pub active_turn_settled : Bool
  pub last_error : Option Text
  pub verification_status : GoalVerificationStatus

pub data VerdictOutcome : Type 0 where
  approved rejected needs_clarification invalid : VerdictOutcome

unfoldable pub is_approved : VerdictOutcome → Bool
is_approved VerdictOutcome.approved = true
is_approved _ = false

pub record VerifierVerdict : Type 0 where
  pub outcome : VerdictOutcome
  pub score : Option ℕ
  pub summary : Text

abbrev pub goal_schema_version : ℕ
goal_schema_version = 3

abbrev pub default_goal_max_loops : ℕ
default_goal_max_loops = 100

abbrev pub i64_max : ℕ
i64_max = 2 ^ 63 - 1

-- the state of a new goal
unfoldable pub new_goal : Text → Text → GoalLimits → ℕ → GoalState
new_goal goal_id objective limits created_at_ms = record {
  schema_version = goal_schema_version;
  goal_id = goal_id;
  objective = objective;
  status = GoalStatus.running;
  current_milestone = 1;
  total_milestones = 3;
  loop_count = 0;
  max_loops = if limits.max_loops == 0 then default_goal_max_loops else limits.max_loops;
  milestone_step_budget = limits.milestone_step_budget;
  milestone_timeout_secs = limits.milestone_timeout_secs;
  verifier_model = none;
  verifier_model_selection = none;
  last_verifier_score = none;
  token_budget = none;
  tokens_used = 0;
  created_at_ms = created_at_ms;
  updated_at_ms = created_at_ms;
  active_turn_id = none;
  active_turn_settled = false;
  last_error = none;
  verification_status = GoalVerificationStatus.idle;
}

-- the updates that the operations of the store pass to `update_running_goal`
unfoldable pub turn_started : Text → GoalState → GoalState
turn_started turn_id s = record s { active_turn_id = some turn_id; active_turn_settled = false }

unfoldable pub turn_settled : GoalState → GoalState
turn_settled s = record s { active_turn_settled = true }

unfoldable pub verification_started : GoalState → GoalState
verification_started s = record s { verification_status = GoalVerificationStatus.running }

unfoldable pub is_exhausted : Option ℕ → ℕ → Bool
is_exhausted none used = false
is_exhausted (some budget) used = leb budget used

unfoldable pub usage_recorded : ℕ → GoalState → GoalState
usage_recorded tokens s =
    let used = min (s.tokens_used + min tokens i64_max) i64_max in
    let counted = record s { tokens_used = used } in
    if is_exhausted s.token_budget used
    then record counted {
      status = GoalStatus.budget_limited;
      last_error = some (codes "goal token budget exhausted");
    }
    else counted

unfoldable pub turn_limited : GoalStatus → Text → GoalState → GoalState
turn_limited status reason s = record s { status = status; last_error = some reason }

-- the test of `update_running_goal`; a goal that has no Turn matches no Turn
unfoldable pub is_active_turn : Option Text → Option Text → Bool
is_active_turn none active = true
is_active_turn (some turn_id) none = false
is_active_turn (some turn_id) (some active) = text_eq active turn_id

unfoldable pub is_addressed : Text → Option Text → GoalState → Bool
is_addressed goal_id turn_id s =
    text_eq s.goal_id goal_id && (is_running s.status && is_active_turn turn_id s.active_turn_id)

-- the loop limit, which an approved milestone is not held to
unfoldable pub limited : GoalState → GoalState
limited s = if leb s.max_loops s.loop_count then record s { status = GoalStatus.failed } else s

unfoldable pub approved_goal : GoalState → GoalState
approved_goal s =
    if leb s.total_milestones s.current_milestone
    then record s { status = GoalStatus.converged }
    else record s { current_milestone = s.current_milestone + 1 }

unfoldable pub judged : Option VerifierVerdict → GoalState → GoalState
judged none s = limited s
judged (some v) s =
    let t = record s {
      verification_status = GoalVerificationStatus.completed;
      last_verifier_score = v.score;
    } in
    if is_approved v.outcome then approved_goal t else limited t

-- what `advance_goal_milestone` writes of a running goal
unfoldable pub advanced : Option VerifierVerdict → ℕ → GoalState → GoalState
advanced verdict now s = record (judged verdict (record s { loop_count = s.loop_count + 1 })) {
  updated_at_ms = now;
  active_turn_id = none;
  active_turn_settled = false;
  last_error = none;
}

unfoldable pub paused : ℕ → GoalState → GoalState
paused now s = record s {
  status = GoalStatus.user_paused;
  active_turn_id = none;
  active_turn_settled = false;
  updated_at_ms = now;
}

unfoldable pub resumed : ℕ → GoalState → GoalState
resumed now s = record s { status = GoalStatus.running; updated_at_ms = now }
