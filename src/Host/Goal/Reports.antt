-- ===== src/Host/Goal/Reports.antt =====
-- crates/mini-agent-host/src/goal.rs: what is reported of a Turn of the goal.
use mini_agent_harness.Prelude.{
  ℕ, ◌+◌, min, ◌≡◌, refl, ap, ◌∙◌, ◌⊎◌, inl, inr, Text, true, false, Bool-cases, Option, none, some,
}
use mini_agent_harness.Host.Goal.State.{
  GoalState, GoalStatus, GoalVerificationStatus, is_running, is_addressed, turn_settled,
  verification_started, usage_recorded, turn_limited, is_exhausted, i64_max,
}
use mini_agent_harness.Host.Goal.Files.{
  Io, Files, Writable, KeepsVerdicts, Result, ok, ◌>>=◌, ◌>>◌, pure, after,
}
use mini_agent_harness.Host.Goal.Update.{
  mark_goal_turn_settled, mark_goal_verification_started, record_goal_usage, limit_goal_turn,
  progress_of, write_verifier_progress,
}
use mini_agent_harness.Host.Goal.Durable.{Holds}
use mini_agent_harness.Host.Goal.Runs.{Runs, is_addressed-Runs, Runs-is_addressed}
use mini_agent_harness.Host.Goal.Budget.{
  IsCounted, update_running_goal-stale, update_running_goal-Holds, usage_recorded-IsCounted,
}

-- a Turn settled, its verification started at a checkpoint, it used tokens, it met a limit
pub data Report : Type 0 where
  settled : Report
  verifying : ℕ → Report
  used : ℕ → Report
  limited : GoalStatus → Text → Report

unfoldable pub tell : {D : Type 0} → Files D → Text → Text → Report → Io D (Option GoalState)
unfolding mark_goal_turn_settled mark_goal_verification_started record_goal_usage limit_goal_turn
tell F goal_id turn_id Report.settled = mark_goal_turn_settled F goal_id turn_id
tell F goal_id turn_id (Report.verifying seq) = mark_goal_verification_started F goal_id turn_id seq
tell F goal_id turn_id (Report.used tokens) = record_goal_usage F goal_id turn_id tokens
tell F goal_id turn_id (Report.limited status reason) =
    limit_goal_turn F goal_id turn_id status reason

-- what a report makes known
abbrev pub IsTold : Report → GoalState → GoalState → Type 0
IsTold Report.settled s t = (t.active_turn_settled ≡ true) × (t.status ≡ s.status)
IsTold (Report.verifying seq) s t =
    (t.verification_status ≡ GoalVerificationStatus.running) × (t.status ≡ s.status)
IsTold (Report.used tokens) s t = IsCounted tokens s t
IsTold (Report.limited status reason) s t = (t.status ≡ status) × (t.last_error ≡ some reason)

-- what a report leaves as it was
pub record IsSameGoal (s t : GoalState) : Type 0 where
  pub goal_id : t.goal_id ≡ s.goal_id
  pub objective : t.objective ≡ s.objective
  pub milestone : t.current_milestone ≡ s.current_milestone
  pub loops : t.loop_count ≡ s.loop_count
  pub budget : t.token_budget ≡ s.token_budget
  pub turn : t.active_turn_id ≡ s.active_turn_id

-- the answer to a report of the Turn that the goal runs
abbrev pub Reported :
    {D : Type 0} → Files D → Report → GoalState → D × Result (Option GoalState) → Type 0
Reported {D} F report s answer =
    (t : GoalState) × (d' : D) × (answer ≡ (d', ok (some t)))
    × Holds F d' t
    × IsTold report s t
    × IsSameGoal s t

usage_recorded-IsSameGoal : (tokens : ℕ) (s : GoalState) → IsSameGoal s (usage_recorded tokens s)
unfolding usage_recorded
usage_recorded-IsSameGoal tokens s =
    elim (Bool-cases
      (is_exhausted s.token_budget (min (s.tokens_used + min tokens i64_max) i64_max))) [
        | inl out ↦ rw out (record {
          goal_id = refl;
          objective = refl;
          milestone = refl;
          loops = refl;
          budget = refl;
          turn = refl;
        })
        | inr left ↦ rw left (record {
          goal_id = refl;
          objective = refl;
          milestone = refl;
          loops = refl;
          budget = refl;
          turn = refl;
        })
      ]

module _ {D : Type 0} (F : Files D) (W : Writable F) (K : KeepsVerdicts F)
    (goal_id turn_id : Text) where
  -- A verdict is written, and what follows runs on the disk that has it.
  verdict-then :
      {B : Type 0} (x : Text) (k : Io D B) (d : D)
      → (F.write_verdict x >> k) d ≡ k (F.write_verdict x d).0
  unfolding ◌>>◌ ◌>>=◌ after
  verdict-then x k d = go (F.write_verdict x d) (K.progressed x d)
    where
      go : (w : D × Result (Unit {0})) → w.1 ≡ ok tt → after w (λ _. k) ≡ k w.0
      go (d1, r) h = rw h

  progress_of-Holds :
      (seq : ℕ) (t : GoalState) (d : D)
      → Holds F d t
      → (d' : D) × (progress_of F seq (some t) d ≡ (d', ok (some t))) × Holds F d' t
  unfolding progress_of write_verifier_progress pure
  progress_of-Holds seq t d (e, r) =
      (_, verdict-then _ (pure (some t)) d, (K.still_exists _ d ∙ e, K.still_reads _ d ∙ r))

  tell_running :
      {d : D} {s : GoalState}
      → Holds F d s
      → (report : Report) → Runs goal_id turn_id s
      → Reported F report s (tell F goal_id turn_id report d)
  unfolding tell mark_goal_turn_settled mark_goal_verification_started record_goal_usage
      limit_goal_turn turn_settled verification_started turn_limited ◌>>=◌ after is_running
  tell_running {d} {s} h Report.settled runs =
      let (now, d', e, kept) =
        update_running_goal-Holds F W {d = d} {s = s} h goal_id (some turn_id) turn_settled
          (Runs-is_addressed goal_id turn_id s runs) in
      (
        record (turn_settled s) { updated_at_ms = now },
        d',
        e,
        kept,
        (refl, refl),
        record {
          goal_id = refl;
          objective = refl;
          milestone = refl;
          loops = refl;
          budget = refl;
          turn = refl;
        },
      )
  tell_running {d} {s} h (Report.verifying seq) runs =
      let (now, d', e, kept) =
        update_running_goal-Holds F W {d = d} {s = s} h goal_id (some turn_id) verification_started
          (Runs-is_addressed goal_id turn_id s runs) in
      let t : GoalState = record (verification_started s) { updated_at_ms = now } in
      let (d'', e', kept') = progress_of-Holds seq t d' kept in
      (
        t,
        d'',
        ap (λ p. after p (progress_of F seq)) e ∙ e',
        kept',
        (refl, refl),
        record {
          goal_id = refl;
          objective = refl;
          milestone = refl;
          loops = refl;
          budget = refl;
          turn = refl;
        },
      )
  tell_running {d} {s} h (Report.used tokens) runs =
      let (now, d', e, kept) =
        update_running_goal-Holds F W {d = d} {s = s} h goal_id (some turn_id)
          (usage_recorded tokens) (Runs-is_addressed goal_id turn_id s runs) in
      let c = usage_recorded-IsCounted tokens s (ap is_running runs.1) in
      let g = usage_recorded-IsSameGoal tokens s in
      (
        record (usage_recorded tokens s) { updated_at_ms = now },
        d',
        e,
        kept,
        record { used = c.used; budget = c.budget; runs = c.runs },
        record {
          goal_id = g.goal_id;
          objective = g.objective;
          milestone = g.milestone;
          loops = g.loops;
          budget = g.budget;
          turn = g.turn;
        },
      )
  tell_running {d} {s} h (Report.limited status reason) runs =
      let (now, d', e, kept) =
        update_running_goal-Holds F W {d = d} {s = s} h goal_id (some turn_id)
          (turn_limited status reason) (Runs-is_addressed goal_id turn_id s runs) in
      (
        record (turn_limited status reason s) { updated_at_ms = now },
        d',
        e,
        kept,
        (refl, refl),
        record {
          goal_id = refl;
          objective = refl;
          milestone = refl;
          loops = refl;
          budget = refl;
          turn = refl;
        },
      )

  tell_stale :
      {d : D} {s : GoalState}
      → Holds F d s
      → (report : Report) → is_addressed goal_id (some turn_id) s ≡ false
      → tell F goal_id turn_id report d ≡ (d, ok none)
  unfolding tell mark_goal_turn_settled mark_goal_verification_started record_goal_usage
      limit_goal_turn ◌>>=◌ after progress_of pure
  tell_stale h Report.settled stale =
      update_running_goal-stale F h goal_id (some turn_id) turn_settled stale
  tell_stale h (Report.verifying seq) stale =
      rw (update_running_goal-stale F h goal_id (some turn_id) verification_started stale)
  tell_stale h (Report.used tokens) stale =
      update_running_goal-stale F h goal_id (some turn_id) (usage_recorded tokens) stale
  tell_stale h (Report.limited status reason) stale =
      update_running_goal-stale F h goal_id (some turn_id) (turn_limited status reason) stale

  -- Where the session's files can be written, the end of a Turn, the start of its verification, its use
  -- of tokens and a limit that it met are each told to the goal exactly where a goal of that id is
  -- running and runs that Turn. What is told is then on the disk as in the answer, and the goal keeps its
  -- objective, milestone, rounds, budget and Turn; else nothing is written and the answer is empty.
  pub tell-Reported :
      {d : D} {s : GoalState}
      → Holds F d s
      → (report : Report)
      → (Runs goal_id turn_id s × Reported F report s (tell F goal_id turn_id report d))
        ⊎ ((¬ (Runs goal_id turn_id s)) × (tell F goal_id turn_id report d ≡ (d, ok none)))
  tell-Reported {d} {s} h report = elim (Bool-cases (is_addressed goal_id (some turn_id) s)) [
    | inl mine ↦
        let runs = is_addressed-Runs goal_id turn_id s mine in
        inl (runs, tell_running {d = d} {s = s} h report runs)
    | inr stale ↦ inr (
      (λ runs. cc (Runs-is_addressed goal_id turn_id s runs)),
      tell_stale {d = d} {s = s} h report stale,
    )
  ]
