-- ===== src/Examples/Runs.antt =====
-- A run whose model first asks for a tool and then answers, and a streamed answer that is cut.
use mathlib.Core.Path.{subst}
use mini_agent_harness.Prelude.{
  ℕ, Bool, ◌≡◌, ◌≤◌, refl, ap, ◌++◌, ◌∷◌, List, [], none, true, false, codes, Distinct, ◌==◌, arith,
}
use mini_agent_harness.Protocol.{ModelResponse, ModelEvent, ToolCall, text_delta, reasoning_delta}
use mini_agent_harness.Protocol.Outcome
use mini_agent_harness.Session.Groups.{call_ids}
use mini_agent_harness.Control.Run
use mini_agent_harness.Control.Run.{SteeringMode}
use mini_agent_harness.Harness.Config.{Result, ok, err, Model}
use mini_agent_harness.Harness.Compact.{Run}
use mini_agent_harness.Harness.Stream
use mini_agent_harness.Harness.Stream.{emit_all}
use mini_agent_harness.Harness.Streamed.{deltas_of, delta_bytes, IsOverNext, emit_all-prefix}
use mini_agent_harness.Harness.Loop.State.{Env}
use mini_agent_harness.Harness.Loop.Start.{run_with_control_mode_and_tool_context}
use mini_agent_harness.Harness.Loop.Ensures.{HasDistinctCalls}
use mini_agent_harness.Harness.Loop.Outcome.{EndsWell, HasEnded, run-EndsWell, run-HasEnded}
use mini_agent_harness.Examples.Data.{json, config, call_a, settled_history}

abbrev answer_with : List (ToolCall ℕ) → ModelResponse ℕ
answer_with calls = record { reasoning = []; text = codes "so"; tool_calls = calls; usage = none }

-- the world counts the requests
abbrev pub asks_once : Model ℕ Bool Unit
asks_once request false = (true, ok (answer_with (call_a ∷ [])))
asks_once request true = (true, ok (answer_with []))

tool_calls_of : Result Unit (ModelResponse ℕ) → List (ToolCall ℕ)
tool_calls_of (ok response) = response.tool_calls
tool_calls_of (err e) = []

pub asks_once-HasDistinctCalls : HasDistinctCalls asks_once
unfolding tool_calls_of call_ids
asks_once-HasDistinctCalls request false response e =
    subst (λ calls. Distinct (call_ids calls)) (ap tool_calls_of e) (refl, tt)
asks_once-HasDistinctCalls request true response e =
    subst (λ calls. Distinct (call_ids calls)) (ap tool_calls_of e) tt

abbrev pub run : Run ℕ Bool Unit
run = record {
  harness = record {
    model = asks_once;
    tools = record {
      tools = [];
      executor = λ t r w. (w, Outcome.failed (codes "no tools"));
      hidden_tools = [];
    };
    config = record config { max_context_bytes = 1000 };
    session = record { messages = settled_history; context_revision = 8 };
    pending_context_injections = [];
    model_selection = none;
    reasoning_selection = none;
    reasoning_effort = none;
  };
  events = [];
  world = false;
}

-- no other thread reaches the run control, and each request is polled once before its answer
abbrev pub env : Env ℕ Bool Unit
env = record {
  json = json;
  encode_input = λ prompt messages specs. prompt;
  encode_specs = λ specs. [];
  same_value = λ a b. a == b;
  provider = record {
    context_snapshot = λ selection. none;
    is_context_window_error = λ e. false;
    pending_polls = λ request w. 1;
    stream = λ request w. (3, text_delta (codes "so")) ∷ [];
    response_ms = λ request w. 5;
    dropped = λ request w n. (w, []);
  };
  prompt = codes "sum up";
  sink = none;
  others = λ n c. c;
  steering_mode = SteeringMode.stop_at_checkpoint;
  tool_context = none;
  specs = [];
}

run-EndsWell_example :
    EndsWell run.harness.config 0
      (run_with_control_mode_and_tool_context env (codes "go") none 3 run Run.new [] none)
run-EndsWell_example =
    run-EndsWell env (codes "go") none run Run.new [] none 3 asks_once-HasDistinctCalls tt

run-HasEnded_example :
    HasEnded run.harness.config 0
      (run_with_control_mode_and_tool_context env (codes "go") none 9 run Run.new [] none)
run-HasEnded_example =
    run-HasEnded env (codes "go") none run Run.new [] none asks_once-HasDistinctCalls tt
      (omega arith) (omega arith) refl

-- nine bytes in three deltas
abbrev deltas : List (ℕ × ModelEvent)
deltas =
    (2, reasoning_delta (codes "hmm"))
    ∷ (4, text_delta (codes "so"))
    ∷ (6, text_delta (codes "this"))
    ∷ []

emit_all-prefix_example :
    (shown : List (ℕ × ModelEvent)) × (hidden : List (ℕ × ModelEvent)) × (deltas ≡ shown ++ hidden)
    × ((emit_all deltas (Stream.new {V = ℕ} 6)).forwarded ≡ deltas_of shown)
    × (delta_bytes shown ≤ 6)
    × IsOverNext 6 (delta_bytes shown) hidden
emit_all-prefix_example = emit_all-prefix 6 deltas (omega arith)
