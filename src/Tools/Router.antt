-- ===== src/Tools/Router.antt =====
-- crates/mini-agent-core/src/tool.rs: `ToolRouter`. A tool and the delegate that executes it are the
-- host's: a tool is a record of functions, and `W` is the world that a call may change.
use mini_agent_harness.Prelude.{
  Text, Bool, Option, none, some, List, [], ◌∷◌, ◌++◌, map, not, codes, text_eq, text_mem, keep,
  ◌&&◌, if◌then◌else◌,
}
use mini_agent_harness.Protocol.{
  ToolSpec, ToolExecutionRequest, ToolExecutionOutcome, ToolReplaySafety,
}
use mini_agent_harness.Protocol.Outcome

pub record Tool (V W : Type 0) : Type 0 where
  pub spec : ToolSpec V
  pub execute_outcome : V → W → W × ToolExecutionOutcome
  pub recovery_replay_safety : ToolExecutionRequest V → ToolReplaySafety

-- `ToolExecutionDelegate::execute`
abbrev pub Delegate : Type 0 → Type 0 → Type 0
Delegate V W = Tool V W → ToolExecutionRequest V → W → W × ToolExecutionOutcome

pub record ToolRouter (V W : Type 0) : Type 0 where
  pub tools : List (Tool V W)
  pub executor : Delegate V W
  pub hidden_tools : List Text

module _ {V W : Type 0} where
  -- `DirectToolExecution`
  unfoldable pub direct_execution : Delegate V W
  direct_execution tool request w = tool.execute_outcome request.arguments w

  unfoldable pub with_executor : List (Tool V W) → Delegate V W → ToolRouter V W
  with_executor tools executor = record { tools = tools; executor = executor; hidden_tools = [] }

  unfoldable pub new : List (Tool V W) → ToolRouter V W
  new tools = with_executor tools direct_execution

  unfoldable pub is_hidden : ToolRouter V W → Text → Bool
  is_hidden r name = text_mem name r.hidden_tools

  unfoldable pub specs : ToolRouter V W → List (ToolSpec V)
  specs r = map (λ t. t.spec) (keep (λ t. not (is_hidden r t.spec.name)) r.tools)

  unfoldable pub extend : List (Tool V W) → ToolRouter V W → ToolRouter V W
  extend tools r = record r { tools = r.tools ++ tools }

  unfoldable pub set_hidden_tools : List Text → ToolRouter V W → ToolRouter V W
  set_hidden_tools names r = record r { hidden_tools = names }

  -- the first visible tool of that name
  unfoldable pub find_tool : (Text → Bool) → Text → List (Tool V W) → Option (Tool V W)
  find_tool hidden name [] = none
  find_tool hidden name (t ∷ ts) =
      if text_eq t.spec.name name && not (hidden t.spec.name)
      then some t
      else find_tool hidden name ts

  unfoldable pub execute_outcome :
      ToolRouter V W → ToolExecutionRequest V → W → W × ToolExecutionOutcome
  execute_outcome r request w = elim (find_tool (is_hidden r) request.name r.tools) [
    | none ↦ (w, Outcome.failed (codes "unknown tool: " ++ request.name))
    | some t ↦ r.executor t request w
  ]

  unfoldable pub recovery_replay_safety : ToolRouter V W → ToolExecutionRequest V → ToolReplaySafety
  recovery_replay_safety r request =
      elim (find_tool (λ _. is_hidden r request.name) request.name r.tools) [
        | none ↦ ToolReplaySafety.never
        | some t ↦ t.recovery_replay_safety request
      ]
