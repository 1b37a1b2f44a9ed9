-- ===== src/Host/Goal/Runs.antt =====
-- crates/mini-agent-host/src/goal.rs, `update_running_goal`: the test whether the goal runs a Turn.
use mini_agent_harness.Prelude.{
  ◌≡◌, ◌↔◌, refl, ap, arith, Text, true, Option, none, some, text_eq_iff,
}
use mini_agent_harness.Host.Goal.State.{
  GoalState, GoalStatus, is_running, is_active_turn, is_addressed,
}

-- the goal of that id runs, and runs that Turn
abbrev pub Runs : Text → Text → GoalState → Type 0
Runs goal_id turn_id s =
    (s.goal_id ≡ goal_id) × (s.status ≡ GoalStatus.running) × (s.active_turn_id ≡ some turn_id)

is_running_eq : (x : GoalStatus) → is_running x ≡ true → x ≡ GoalStatus.running
unfolding is_running
is_running_eq GoalStatus.running h = refl
is_running_eq GoalStatus.converged h = cc
is_running_eq GoalStatus.failed h = cc
is_running_eq GoalStatus.user_paused h = cc
is_running_eq GoalStatus.usage_limited h = cc
is_running_eq GoalStatus.budget_limited h = cc

is_active_turn_iff :
    (turn_id : Text) (o : Option Text)
    → (is_active_turn (some turn_id) o ≡ true) ↔ (o ≡ some turn_id)
unfolding is_active_turn
is_active_turn_iff turn_id none = (λ h. cc, λ h. cc)
is_active_turn_iff turn_id (some a) =
    (λ h. ap some ((text_eq_iff a turn_id).0 h), λ h. (text_eq_iff a turn_id).1 cc)

pub is_addressed-Runs :
    (goal_id turn_id : Text) (s : GoalState)
    → is_addressed goal_id (some turn_id) s ≡ true
    → Runs goal_id turn_id s
unfolding is_addressed
is_addressed-Runs goal_id turn_id s h = (
  (text_eq_iff s.goal_id goal_id).0 (ground (arith, h)),
  is_running_eq s.status (ground (arith, h)),
  (is_active_turn_iff turn_id s.active_turn_id).0 (ground (arith, h)),
)

pub Runs-is_addressed :
    (goal_id turn_id : Text) (s : GoalState)
    → Runs goal_id turn_id s
    → is_addressed goal_id (some turn_id) s ≡ true
unfolding is_addressed is_running
Runs-is_addressed goal_id turn_id s (goal, on, turn) =
    rw
      (
        (text_eq_iff s.goal_id goal_id).1 goal,
        on,
        (is_active_turn_iff turn_id s.active_turn_id).1 turn,
      )
      refl
