-- ===== src/Examples/Tools.antt =====
-- A router with one tool, which is hidden.
use mini_agent_harness.Prelude.{
  ℕ, ◌≡◌, refl, true, false, none, [], ◌∷◌, ◌++◌, codes, some_of, text_eq,
}
use mini_agent_harness.Protocol.{ToolExecutionRequest, ToolReplaySafety}
use mini_agent_harness.Protocol.Outcome
use mini_agent_harness.Tools.Router.{
  Tool, ToolRouter, is_hidden, specs, execute_outcome, recovery_replay_safety,
}
use mini_agent_harness.Tools.Hidden.{hidden_tool_runs_nothing}
use mini_agent_harness.Examples.Data.{router}

abbrev reader : Tool ℕ Unit
reader = record {
  spec = record { name = codes "read"; description = []; parameters = 0 };
  execute_outcome = λ v w. (w, Outcome.completed []);
  recovery_replay_safety = λ r. ToolReplaySafety.never;
}

abbrev hiding : ToolRouter ℕ Unit
hiding = record router { tools = reader ∷ []; hidden_tools = codes "read" ∷ [] }

abbrev request : ToolExecutionRequest ℕ
request = record {
  call_id = codes "a";
  name = codes "read";
  arguments = 1;
  context = none;
  known_context_injections = [];
  cancellation = none;
}

request_hidden : is_hidden hiding request.name ≡ true
unfolding is_hidden
request_hidden = refl

hidden_tool_runs_nothing_example :
    (execute_outcome hiding request tt
      ≡ (tt, Outcome.failed (codes "unknown tool: " ++ request.name)))
    × ((recovery_replay_safety hiding request ≡ ToolReplaySafety.never)
        × (some_of (λ s. text_eq s.name request.name) (specs hiding) ≡ false))
hidden_tool_runs_nothing_example = hidden_tool_runs_nothing hiding request tt request_hidden
