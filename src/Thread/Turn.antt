-- ===== src/Thread/Turn.antt =====
-- crates/mini-agent-core/src/thread.rs,
-- `run_turn_with_events_and_preflight_and_journal_resume`: a Turn of a Thread, from its input to its
-- result.
use mini_agent_harness.Prelude.{ℕ, Text, Option, none, some, List, [], ◌++◌, not, if◌then◌else◌}
use mini_agent_harness.Protocol.{
  Event, EventEnvelope, TurnInput, ThreadStatus, TurnStatus, ToolExecutionContext, turn_started,
  turn_finished,
}
use mini_agent_harness.Protocol.Same.{same_input}
use mini_agent_harness.Execution.{ExecutionCheckpoint, ExecutionRunContext, ExecutionJournalEntry}
use mini_agent_harness.Control.Run.{RunControl}
use mini_agent_harness.Harness.Config.{Result, ok, err, HarnessError, RunOutcome}
use mini_agent_harness.Harness.Config
use mini_agent_harness.Harness.History
use mini_agent_harness.Harness.Compact.{Run}
use mini_agent_harness.Harness.Loop.State.{Env, Loop, Flow, next, done, fail}
use mini_agent_harness.Harness.Loop.Start.{Resume, run_with_control_mode_and_tool_context}
use mini_agent_harness.Thread.State.{
  Thread, ThreadError, TurnResult, begin_turn, finish_turn, status_for_outcome,
}
use mini_agent_harness.Thread.Envelopes
use mini_agent_harness.Thread.Envelopes.{Hooks, EnvelopeObserver, observe, observe_all}

-- `TurnExecutionOptions`, less the journal
pub record TurnExecutionOptions (V : Type 0) : Type 0 where
  pub prelude : List (Event V)
  pub preflight_error : Option Text
  pub resume : Resume V
  pub applied_steer_request_ids : List Text

-- what a Turn works on: the Thread, and what its run is given beside it
pub record TurnState (V W E : Type 0) : Type 0 where
  pub thread : Thread V W E
  pub world : W
  pub control : RunControl
  pub journal : List (ExecutionJournalEntry V)
  pub emitted : List (EventEnvelope V)

-- The answer of a Turn, and none where the run goes on after the rounds that it was given.
abbrev pub TurnAnswer : Type 0 → Type 0 → Type 0
TurnAnswer V E = Option (Result (ThreadError E) (TurnResult V))

unfoldable pub status_of : {V E : Type 0} → Result (HarnessError E) (RunOutcome V) → TurnStatus
unfolding status_for_outcome
status_of (ok outcome) = status_for_outcome outcome
status_of (err e) = TurnStatus.failed

unfoldable pub context_of : Text → Text → ToolExecutionContext
context_of thread_id turn_id = record {
  thread_id = thread_id;
  turn_id = turn_id;
  project_id = none;
  workspace_id = none;
  workspace_revision = none;
  session_id = none;
}

module _ {V W E : Type 0} where
  unfoldable pub resume_idle :
      ExecutionCheckpoint V → TurnInput → Thread V W E → Thread V W E × Result (ThreadError E) Text
  unfolding same_input
  resume_idle checkpoint input t =
      if not (same_input checkpoint.input input)
      then (t, err (ThreadError.invalid_input_mode input.mode))
      else (elim (History.validate_user_input input.text t.harness) [
        | some limit ↦ (t, err (ThreadError.harness_failed (HarnessError.limit limit)))
        | none ↦ (
          record t { status = ThreadStatus.running; last_turn_id = some checkpoint.turn_id },
          ok checkpoint.turn_id,
        )
      ])

  unfoldable pub resume_turn :
      ExecutionCheckpoint V → TurnInput → Thread V W E → Thread V W E × Result (ThreadError E) Text
  unfolding resume_idle
  resume_turn checkpoint input t = elim t.status [
    | ThreadStatus.closed ↦ (t, err ThreadError.is_closed)
    | ThreadStatus.running ↦ (t, err ThreadError.busy)
    | ThreadStatus.idle ↦ resume_idle checkpoint input t
    | ThreadStatus.awaiting_input ↦ resume_idle checkpoint input t
    | ThreadStatus.failed ↦ resume_idle checkpoint input t
  ]

  -- the id of the Turn, with the Thread that runs it
  unfoldable pub enter_turn :
      Resume V → TurnInput → Thread V W E → Thread V W E × Result (ThreadError E) Text
  unfolding begin_turn resume_turn
  enter_turn none input t = begin_turn input t
  enter_turn (some (checkpoint, batch)) input t = resume_turn checkpoint input t

  -- `TurnFinished`, the sequence number and `finish_turn`
  unfoldable pub conclude :
      Hooks V
      → Text
      → EnvelopeObserver V
      → Result (HarnessError E) (RunOutcome V)
      → TurnState V W E
      → TurnState V W E × TurnAnswer V E
  unfolding observe finish_turn status_of
  conclude hooks id o outcome s =
      let o' = observe hooks (turn_finished (status_of outcome)) o in
      let (thread, answer) =
        finish_turn id outcome (record s.thread { next_event_sequence = o'.next_sequence }) in
      (record s { thread = thread; emitted = s.emitted ++ o'.emitted }, some answer)

  -- what the run has left, and how it ended
  unfoldable pub settle_turn :
      Hooks V
      → Text
      → EnvelopeObserver V
      → TurnState V W E
      → Loop V W E × Flow V E (Unit {0})
      → TurnState V W E × TurnAnswer V E
  unfolding observe_all conclude
  settle_turn hooks id o s (l, flow) =
      let o' = observe_all hooks l.run.events o in
      let s' = record s {
        thread = record s.thread { harness = l.run.harness };
        world = l.run.world;
        control = l.control;
        journal = l.journal;
      } in
      elim flow [
        | next _ ↦ (record s' { emitted = s.emitted ++ o'.emitted }, none)
        | done outcome ↦ conclude hooks id o' (ok outcome) s'
        | fail e ↦ conclude hooks id o' (err e) s'
      ]

  unfoldable pub begin_run : Text → Thread V W E → W → Env V W E → Env V W E × Run V W E
  unfolding context_of
  begin_run id t world v = (
    record v { tool_context = some (context_of t.id id) },
    record { harness = t.harness; events = []; world = world },
  )

  unfoldable pub prefer : TurnInput → Thread V W E → Thread V W E
  unfolding Config.set_model_preferences
  prefer input t = record t {
    harness =
        Config.set_model_preferences input.model_selection input.reasoning_selection
          input.reasoning_effort t.harness;
  }

  -- what the sink has received before the run
  unfoldable pub opened :
      Hooks V → TurnInput → List (Event V) → Text → Thread V W E → EnvelopeObserver V
  unfolding observe observe_all Envelopes.new
  opened hooks input prelude id t = observe_all hooks prelude (
      observe hooks (turn_started input.mode input.text)
        (Envelopes.new t.id id t.next_event_sequence))

  unfoldable pub run_ready :
      Env V W E
      → TurnInput
      → TurnExecutionOptions V
      → ℕ
      → Text
      → TurnState V W E
      → Loop V W E × Flow V E (Unit {0})
  unfolding begin_run run_with_control_mode_and_tool_context
  run_ready v input options fuel id s =
      let (env, run) = begin_run id s.thread s.world v in
      let execution : ExecutionRunContext = record {
        turn_id = id;
        input = input;
        applied_steer_request_ids = options.applied_steer_request_ids;
      } in
      run_with_control_mode_and_tool_context env input.text options.resume fuel run s.control
        s.journal (some execution)

  -- the input's skills could not be activated
  unfoldable pub refuse_skills :
      Hooks V → Text → EnvelopeObserver V → TurnState V W E → TurnState V W E × TurnAnswer V E
  unfolding observe
  refuse_skills hooks error o s =
      let o' = observe hooks (turn_finished TurnStatus.failed) o in
      (
        record s {
          thread = record s.thread {
            next_event_sequence = o'.next_sequence;
            status = ThreadStatus.idle;
          };
          emitted = s.emitted ++ o'.emitted;
        },
        some (err (ThreadError.skill_activation error)),
      )

  -- a Turn that has begun
  unfoldable pub run_begun :
      Env V W E
      → Hooks V
      → TurnInput
      → TurnExecutionOptions V
      → ℕ
      → Text
      → TurnState V W E
      → TurnState V W E × TurnAnswer V E
  unfolding prefer opened run_ready refuse_skills settle_turn
  run_begun v hooks input options fuel id s =
      let s' = record s { thread = prefer input s.thread } in
      let o = opened hooks input options.prelude id s'.thread in
      elim options.preflight_error [
        | some error ↦ refuse_skills hooks error o s'
        | none ↦ settle_turn hooks id o s' (run_ready v input options fuel id s')
      ]

  unfoldable pub run_if_entered :
      Env V W E
      → Hooks V
      → TurnInput
      → TurnExecutionOptions V
      → ℕ
      → TurnState V W E
      → Thread V W E × Result (ThreadError E) Text
      → TurnState V W E × TurnAnswer V E
  unfolding run_begun
  run_if_entered v hooks input options fuel s (t, err e) = (record s { thread = t }, some (err e))
  run_if_entered v hooks input options fuel s (t, ok id) =
      run_begun v hooks input options fuel id (record s { thread = t })

  unfoldable pub run_turn_with_events_and_preflight_and_journal_resume :
      Env V W E
      → Hooks V
      → TurnInput
      → TurnExecutionOptions V
      → ℕ
      → TurnState V W E
      → TurnState V W E × TurnAnswer V E
  unfolding enter_turn run_if_entered
  run_turn_with_events_and_preflight_and_journal_resume v hooks input options fuel s =
      run_if_entered v hooks input options fuel s (enter_turn options.resume input s.thread)
