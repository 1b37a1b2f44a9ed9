-- ===== src/Thread/Variants.antt =====
-- crates/mini-agent-core/src/thread.rs: the other ways to run a Turn. Three give defaults to the options
-- of a Turn; `run_turn` tells its observer the events themselves, without envelopes.
use mini_agent_harness.Prelude.{ℕ, Text, Option, none, some, List, [], ◌∷◌, ◌++◌}
use mini_agent_harness.Protocol.{Event, TurnInput, turn_started, turn_finished}
use mini_agent_harness.Harness.Config.{Result, ok, err, HarnessError, RunOutcome}
use mini_agent_harness.Harness.Loop.State.{Env, Loop, Flow, next, done, fail}
use mini_agent_harness.Harness.Loop.Start.{run_with_control_mode_and_tool_context}
use mini_agent_harness.Thread.State.{Thread, ThreadError, begin_turn, finish_turn}
use mini_agent_harness.Thread.Envelopes.{Hooks}
use mini_agent_harness.Thread.Turn.{
  TurnExecutionOptions, TurnState, TurnAnswer, prefer, begin_run, status_of,
  run_turn_with_events_and_preflight_and_journal_resume,
}

module _ {V W E : Type 0} where
  -- without a journal and without a checkpoint
  unfoldable pub run_turn_with_events_and_preflight :
      Env V W E
      → Hooks V
      → TurnInput
      → List (Event V)
      → Option Text
      → ℕ
      → TurnState V W E
      → TurnState V W E × TurnAnswer V E
  unfolding run_turn_with_events_and_preflight_and_journal_resume
  run_turn_with_events_and_preflight v hooks input prelude preflight_error fuel s =
      let options : TurnExecutionOptions V = record {
        prelude = prelude;
        preflight_error = preflight_error;
        resume = none;
        applied_steer_request_ids = [];
      } in
      run_turn_with_events_and_preflight_and_journal_resume (record v { sink = none }) hooks input
        options fuel s

  unfoldable pub run_turn_with_events_and_prelude :
      Env V W E
      → Hooks V
      → TurnInput
      → List (Event V)
      → ℕ
      → TurnState V W E
      → TurnState V W E × TurnAnswer V E
  unfolding run_turn_with_events_and_preflight
  run_turn_with_events_and_prelude v hooks input prelude fuel s =
      run_turn_with_events_and_preflight v hooks input prelude none fuel s

  unfoldable pub run_turn_with_events :
      Env V W E → Hooks V → TurnInput → ℕ → TurnState V W E → TurnState V W E × TurnAnswer V E
  unfolding run_turn_with_events_and_prelude
  run_turn_with_events v hooks input fuel s =
      run_turn_with_events_and_prelude v hooks input [] fuel s

  -- the last event and the result, with all that the observer was told
  unfoldable pub finish_observed :
      Text
      → TurnState V W E
      → List (Event V)
      → Result (HarnessError E) (RunOutcome V)
      → TurnState V W E × List (Event V) × TurnAnswer V E
  unfolding status_of finish_turn
  finish_observed id s events outcome =
      let (thread, answer) = finish_turn id outcome s.thread in
      (record s { thread = thread }, events ++ turn_finished (status_of outcome) ∷ [], some answer)

  unfoldable pub settle_observed :
      Text
      → TurnState V W E
      → Loop V W E × Flow V E (Unit {0})
      → TurnState V W E × List (Event V) × TurnAnswer V E
  unfolding finish_observed
  settle_observed id s (l, flow) =
      let s' = record s {
        thread = record s.thread { harness = l.run.harness };
        world = l.run.world;
        control = l.control;
      } in
      elim flow [
        | next _ ↦ (s', l.run.events, none)
        | done outcome ↦ finish_observed id s' l.run.events (ok outcome)
        | fail e ↦ finish_observed id s' l.run.events (err e)
      ]

  unfoldable pub run_observed :
      Env V W E
      → TurnInput
      → ℕ
      → TurnState V W E
      → Thread V W E × Result (ThreadError E) Text
      → TurnState V W E × List (Event V) × TurnAnswer V E
  unfolding prefer begin_run settle_observed run_with_control_mode_and_tool_context
  run_observed v input fuel s (t, err e) = (record s { thread = t }, [], some (err e))
  run_observed v input fuel s (t, ok id) =
      let s' = record s { thread = prefer input t } in
      let (env, run) = begin_run id s'.thread s.world (record v { sink = none }) in
      let told = record run { events = turn_started input.mode input.text ∷ [] } in
      settle_observed id s'
        (run_with_control_mode_and_tool_context env input.text none fuel told s.control [] none)

  unfoldable pub run_turn :
      Env V W E
      → TurnInput
      → ℕ
      → TurnState V W E
      → TurnState V W E × List (Event V) × TurnAnswer V E
  unfolding begin_turn run_observed
  run_turn v input fuel s = run_observed v input fuel s (begin_turn input s.thread)
