-- ===== src/Examples/Turns.antt =====
-- A Turn of a Thread whose model first asks for a tool and then answers.
use mini_agent_harness.Prelude.{ℕ, Bool, refl, suc, [], none, codes, arith, false}
use mini_agent_harness.Protocol.{ThreadStatus, TurnInput, TurnInputMode, new_input}
use mini_agent_harness.Control.Run
use mini_agent_harness.Thread.State.{Thread}
use mini_agent_harness.Thread.Envelopes.{Hooks}
use mini_agent_harness.Thread.Turn.{
  TurnExecutionOptions, TurnState, run_turn_with_events_and_preflight_and_journal_resume,
}
use mini_agent_harness.Thread.Turned.{IsTurned, run_turn-IsTurned}
use mini_agent_harness.Examples.Runs.{run, env, asks_once-HasDistinctCalls}

abbrev thread : Thread ℕ Bool Unit
thread = record {
  id = codes "t";
  harness = run.harness;
  status = ThreadStatus.idle;
  next_turn_number = 1;
  last_turn_id = none;
  next_event_sequence = 1;
}

abbrev state : TurnState ℕ Bool Unit
state = record { thread = thread; world = false; control = Run.new; journal = []; emitted = [] }

-- the host numbers no event of its own
abbrev hooks : Hooks ℕ
hooks = record { before_event = λ e n. n; after_event = λ e n. n }

abbrev options : TurnExecutionOptions ℕ
options = record {
  prelude = [];
  preflight_error = none;
  resume = none;
  applied_steer_request_ids = [];
}

abbrev input : TurnInput
input = new_input TurnInputMode.start (codes "go")

run_turn-IsTurned_example : IsTurned thread (
    run_turn_with_events_and_preflight_and_journal_resume env hooks input options
      (suc run.harness.config.max_steps)
      state)
run_turn-IsTurned_example =
    run_turn-IsTurned env hooks input options state asks_once-HasDistinctCalls tt (omega arith)
      (omega arith) refl
