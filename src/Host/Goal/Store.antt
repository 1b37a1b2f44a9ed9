-- ===== src/Host/Goal/Store.antt =====
-- crates/mini-agent-host/src/goal.rs: the operations of `HostWorkflowStore` that begin, advance, limit,
-- edit and clear a goal, and its texts. A token budget that is zero stands for one that is zero or
-- negative.
use mini_agent_harness.Prelude.{
  ℕ, zero, suc, ◌*◌, Text, Bool, true, false, Option, none, some, [], ◌∷◌, ◌++◌, codes, length,
  is_nil, ltb, ◌==◌, not, trim, or_else, if◌then◌else◌,
}
use mini_agent_harness.Protocol.{ModelSelection}
use mini_agent_harness.Compaction.Parts.{decimal}
use mini_agent_harness.Tools.Truncate.{is_continuation}
use mini_agent_harness.Host.Goal.State.{
  GoalLimits, GoalState, GoalStatus, GoalVerificationStatus, VerifierVerdict, is_running,
  is_verifying, new_goal, advanced,
}
use mini_agent_harness.Host.Goal.Files.{
  Io, Files, Result, ok, err, IoErrorKind, ◌>>=◌, ◌>>◌, pure, fail, current_time_ms,
  load_goal_state,
}
use mini_agent_harness.Host.Goal.Update.{update_goal_state, stamped}

abbrev pub max_goal_objective_bytes : ℕ
max_goal_objective_bytes = 8 * 1024

abbrev pub max_goal_plan_bytes : ℕ
max_goal_plan_bytes = 32 * 1024

abbrev pub max_goal_error_chars : ℕ
max_goal_error_chars = 512

-- `chars().take(n)` on UTF-8
take_chars : ℕ → Text → Text
take_chars n [] = []
take_chars n (b ∷ bs) = elim (is_continuation b) [
  | true ↦ b ∷ take_chars n bs
  | false ↦ elim n [ zero ↦ [] | suc rest ↦ b ∷ take_chars rest bs ]
]

unfoldable pub error_chars : Text → Text
unfolding take_chars
error_chars error = take_chars max_goal_error_chars error

unfoldable pub error_of : Option Text → Option Text
unfolding error_chars
error_of none = none
error_of (some reason) = some (error_chars reason)

unfoldable pub goal_plan : Text → Text
goal_plan objective =
    codes "# Autonomous Goal Plan: "
    ++ objective
    ++ codes "\n\n## Acceptance Criteria\n"
    ++ codes "- Full workspace tests and linting pass with zero warnings.\n"
    ++ codes "- Independent Goal verifier gives APPROVED verdict.\n\n## Milestones\n"
    ++ codes "- [ ] Milestone 1: Workspace inspection and baseline test verification.\n"
    ++ codes "- [ ] Milestone 2: Incremental implementation and unit testing.\n"
    ++ codes "- [ ] Milestone 3: Full end-to-end verification and cleanup.\n"

unfoldable pub verification_failed : Bool → GoalState → GoalState
verification_failed false s = s
verification_failed true s = record s { verification_status = GoalVerificationStatus.failed }

-- `token_budget.is_some_and(|budget| budget <= 0)`
unfoldable pub is_refused_budget : Option ℕ → Bool
is_refused_budget none = false
is_refused_budget (some budget) = budget == 0

unfoldable pub with_objective : Option Text → GoalState → GoalState
with_objective none s = s
with_objective (some objective) s = record s { objective = trim objective }

unfoldable pub with_budget : Option (Option ℕ) → GoalState → GoalState
with_budget none s = s
with_budget (some budget) s = record s { token_budget = budget }

unfoldable pub is_empty_objective : Option Text → Bool
is_empty_objective none = false
is_empty_objective (some objective) = is_nil (trim objective)

cleared : Result (Unit {0}) → Result Bool
cleared (ok _) = ok true
cleared (err e) = elim e.kind [ IoErrorKind.not_found ↦ ok false | _ ↦ err e ]

module _ {D : Type 0} (F : Files D) where
  unfoldable pub found : Option GoalState → Io D GoalState
  unfolding pure fail
  found none = fail IoErrorKind.not_found (codes "goal state not found")
  found (some s) = pure s

  unfoldable pub advance_running : Option VerifierVerdict → GoalState → Io D GoalState
  unfolding is_running pure ◌>>=◌ ◌>>◌ current_time_ms advanced
  advance_running verdict s = if not (is_running s.status) then pure s else (do
    now ← current_time_ms F
    F.write_state (advanced verdict now s)
    pure (advanced verdict now s))

  unfoldable pub advance_goal_milestone : Option VerifierVerdict → Io D GoalState
  unfolding ◌>>=◌ load_goal_state found advance_running
  advance_goal_milestone verdict = do
    state ← load_goal_state F
    s ← found state
    advance_running verdict s

  -- a failed verification leaves its error where the verdict would stand
  unfoldable pub write_verifier_failure : Option ℕ → Text → Io D (Unit {0})
  write_verifier_failure checkpoint_seq error = F.write_verdict (
      codes "# Goal Verification\n\n- Status: failed\n- Source checkpoint sequence: "
      ++ (elim checkpoint_seq [ none ↦ codes "unknown" | some seq ↦ decimal seq ])
      ++ codes "\n\nVerifier error: "
      ++ error_chars error
      ++ codes "\n")

  unfoldable pub failure_of : Bool → Option Text → Io D (Unit {0})
  unfolding pure write_verifier_failure
  failure_of false error = pure tt
  failure_of true none = write_verifier_failure none (codes "goal verifier failed")
  failure_of true (some error) = write_verifier_failure none error

  unfoldable pub limit_goal_with_reason : GoalStatus → Option Text → Io D GoalState
  unfolding ◌>>=◌ ◌>>◌ pure load_goal_state found current_time_ms is_verifying verification_failed
      failure_of error_of
  limit_goal_with_reason status reason = do
    state ← load_goal_state F
    s ← found state
    now ← current_time_ms F
    let verifying = is_verifying s.verification_status
    let error = error_of reason
    let limited = record (verification_failed verifying s) {
      status = status;
      last_error = error;
      updated_at_ms = now;
    }
    F.write_state limited
    failure_of verifying error
    pure limited

  unfoldable pub fail_goal_with_reason : Option Text → Io D GoalState
  unfolding limit_goal_with_reason
  fail_goal_with_reason reason = limit_goal_with_reason GoalStatus.failed reason

  unfoldable pub record_verifier_failure : ℕ → Text → Io D (Unit {0})
  unfolding write_verifier_failure
  record_verifier_failure checkpoint_seq error = write_verifier_failure (some checkpoint_seq) error

  unfoldable pub record_verifier_verdict : ℕ → Text → Io D (Unit {0})
  unfolding fail decimal
  record_verifier_verdict checkpoint_seq output =
      let text =
        codes "source_checkpoint_seq: " ++ decimal checkpoint_seq ++ codes "\n\n" ++ output in
      if ltb max_goal_plan_bytes (length text)
      then fail IoErrorKind.invalid_data (codes "verifier output exceeds 32768 byte limit")
      else F.write_verdict text

  unfoldable pub initial_plan : Text → Io D (Unit {0})
  unfolding goal_plan
  initial_plan objective d =
      if F.plan_is_file d then (F.copy_plan d, ok tt) else F.write_plan (goal_plan objective) d

  unfoldable pub init_goal_workspace_with_limits : Text → GoalLimits → Io D GoalState
  unfolding ◌>>=◌ ◌>>◌ pure fail current_time_ms new_goal initial_plan decimal
  init_goal_workspace_with_limits objective limits =
      if ltb max_goal_objective_bytes (length objective)
      then fail IoErrorKind.invalid_input (codes "goal objective exceeds 8192 byte limit")
      else (do
        F.create_goal_dir
        id_ms ← current_time_ms F
        created_at_ms ← current_time_ms F
        let s = new_goal (codes "g_" ++ decimal id_ms) objective limits created_at_ms
        F.write_state s
        initial_plan objective
        pure s)

  unfoldable pub set_goal : GoalLimits → Text → Option ℕ → Io D GoalState
  unfolding is_refused_budget fail ◌>>=◌ ◌>>◌ pure init_goal_workspace_with_limits
  set_goal limits objective token_budget =
      if is_refused_budget token_budget
      then fail IoErrorKind.invalid_input (codes "goal token budget must be positive")
      else (do
        s ← init_goal_workspace_with_limits objective limits
        F.write_state (record s { token_budget = token_budget })
        pure (record s { token_budget = token_budget }))

  unfoldable pub set_goal_verifier_selection : Option ModelSelection → Io D (Option GoalState)
  unfolding update_goal_state stamped
  set_goal_verifier_selection selection =
      update_goal_state F λ s. stamped F (record s { verifier_model_selection = selection })

  unfoldable pub edited : Option Text → Option (Option ℕ) → GoalState → Io D (Option GoalState)
  unfolding pure stamped with_objective with_budget
  edited none none s = pure (some s)
  edited (some objective) budget s =
      stamped F (with_budget budget (with_objective (some objective) s))
  edited none (some budget) s = stamped F (with_budget (some budget) s)

  unfoldable pub update_goal : Option Text → Option (Option ℕ) → Io D (Option GoalState)
  unfolding is_empty_objective fail is_refused_budget update_goal_state edited
  update_goal objective token_budget =
      if is_empty_objective objective
      then fail IoErrorKind.invalid_input (codes "goal objective must not be empty")
      else (if is_refused_budget (or_else token_budget none)
          then fail IoErrorKind.invalid_input (codes "goal token budget must be positive")
          else update_goal_state F (edited objective token_budget))

  unfoldable pub clear_goal : Io D Bool
  unfolding cleared
  clear_goal d = let r = F.remove_state d in (r.0, cleared r.1)

  unfoldable pub goal_verification_criteria : Io D Text
  unfolding ◌>>=◌ fail pure
  goal_verification_criteria = do
    plan ← F.read_plan
    if ltb max_goal_plan_bytes (length plan)
        then fail IoErrorKind.invalid_data (codes "goal plan exceeds 32768 byte limit")
        else pure plan
