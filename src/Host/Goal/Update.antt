-- ===== src/Host/Goal/Update.antt =====
-- crates/mini-agent-host/src/goal.rs: the operations that change the goal of a session where it is
-- the one they are told of.
use mini_agent_harness.Prelude.{ℕ, Text, Option, none, some, ◌++◌, codes, if◌then◌else◌}
use mini_agent_harness.Compaction.Parts.{decimal}
use mini_agent_harness.Host.Goal.State.{
  GoalState, GoalStatus, is_user_paused, is_addressed, turn_started, turn_settled,
  verification_started, usage_recorded, turn_limited, paused, resumed,
}
use mini_agent_harness.Host.Goal.Files.{
  Io, Files, ◌>>=◌, ◌>>◌, pure, current_time_ms, load_goal_state,
}

module _ {D : Type 0} (F : Files D) where
  -- writes the state that the update made, and answers with it
  unfoldable pub saved : Option GoalState → Io D (Option GoalState)
  unfolding ◌>>◌ pure
  saved none = pure none
  saved (some s) = F.write_state s >> pure (some s)

  unfoldable pub update_loaded :
      (GoalState → Io D (Option GoalState)) → Option GoalState → Io D (Option GoalState)
  unfolding pure ◌>>=◌ saved
  update_loaded update none = pure none
  update_loaded update (some s) = update s >>= saved

  unfoldable pub update_goal_state : (GoalState → Io D (Option GoalState)) → Io D (Option GoalState)
  unfolding ◌>>=◌ update_loaded load_goal_state
  update_goal_state update = load_goal_state F >>= update_loaded update

  -- `state.updated_at_ms = current_time_ms(); Ok(Some(state.clone()))`
  unfoldable pub stamped : GoalState → Io D (Option GoalState)
  unfolding ◌>>=◌ pure current_time_ms
  stamped s = do now ← current_time_ms F; pure (some (record s { updated_at_ms = now }))

  unfoldable pub update_if_addressed :
      Text → Option Text → (GoalState → GoalState) → GoalState → Io D (Option GoalState)
  unfolding is_addressed stamped pure
  update_if_addressed goal_id turn_id update s =
      if is_addressed goal_id turn_id s then stamped (update s) else pure none

  unfoldable pub update_running_goal :
      Text → Option Text → (GoalState → GoalState) → Io D (Option GoalState)
  unfolding update_goal_state update_if_addressed
  update_running_goal goal_id turn_id update =
      update_goal_state (update_if_addressed goal_id turn_id update)

  unfoldable pub mark_goal_turn_started : Text → Text → Io D (Option GoalState)
  unfolding update_running_goal turn_started
  mark_goal_turn_started goal_id turn_id = update_running_goal goal_id none (turn_started turn_id)

  unfoldable pub mark_goal_turn_settled : Text → Text → Io D (Option GoalState)
  unfolding update_running_goal turn_settled
  mark_goal_turn_settled goal_id turn_id = update_running_goal goal_id (some turn_id) turn_settled

  unfoldable pub write_verifier_progress : ℕ → Io D (Unit {0})
  unfolding decimal
  write_verifier_progress checkpoint_seq = F.write_verdict (
      codes "# Goal Verification\n\n- Status: running\n- Source checkpoint sequence: "
      ++ decimal checkpoint_seq
      ++ codes "\n\nThe independent verifier is evaluating this settled milestone.\n")

  unfoldable pub progress_of : ℕ → Option GoalState → Io D (Option GoalState)
  unfolding pure ◌>>◌ write_verifier_progress
  progress_of checkpoint_seq none = pure none
  progress_of checkpoint_seq (some s) = write_verifier_progress checkpoint_seq >> pure (some s)

  unfoldable pub mark_goal_verification_started : Text → Text → ℕ → Io D (Option GoalState)
  unfolding ◌>>=◌ update_running_goal verification_started progress_of
  mark_goal_verification_started goal_id turn_id checkpoint_seq = do
    updated ← update_running_goal goal_id (some turn_id) verification_started
    progress_of checkpoint_seq updated

  unfoldable pub record_goal_usage : Text → Text → ℕ → Io D (Option GoalState)
  unfolding update_running_goal usage_recorded
  record_goal_usage goal_id turn_id tokens =
      update_running_goal goal_id (some turn_id) (usage_recorded tokens)

  unfoldable pub limit_goal_turn : Text → Text → GoalStatus → Text → Io D (Option GoalState)
  unfolding update_running_goal turn_limited
  limit_goal_turn goal_id turn_id status reason =
      update_running_goal goal_id (some turn_id) (turn_limited status reason)

  unfoldable pub pause_goal : Io D (Option GoalState)
  unfolding update_goal_state is_user_paused ◌>>=◌ pure current_time_ms paused
  pause_goal = update_goal_state λ s.
      if is_user_paused s.status
      then pure none
      else (do now ← current_time_ms F; pure (some (paused now s)))

  unfoldable pub resume_goal : Io D (Option GoalState)
  unfolding update_goal_state is_user_paused ◌>>=◌ pure current_time_ms resumed
  resume_goal = update_goal_state λ s.
      if is_user_paused s.status
      then (do now ← current_time_ms F; pure (some (resumed now s)))
      else pure none
