-- ===== src/Harness/Config.antt =====
-- crates/mini-agent-core/src/harness.rs: configuration, errors and the state of a `Harness`.
use mini_agent_harness.Prelude.{ℕ, Text, Option, none, List, []}
use mini_agent_harness.Protocol.{
  Message, ModelResponse, ModelSelection, ReasoningSelection, ToolSpec, ContextInjectionRecord,
  LimitExceeded, StopReason,
}
use mini_agent_harness.Session.State
use mini_agent_harness.Session.State.{SessionState}
use mini_agent_harness.Tools.Router.{ToolRouter}

pub data Result (E A : Type 0) : Type 0 where
  ok : A → Result E A
  err : E → Result E A

pub data ContextLimitBehavior : Type 0 where
  reject compact : ContextLimitBehavior

pub data ForkContextPolicy : Type 0 where
  exact compact : ForkContextPolicy

pub data ForkCompactionMethod : Type 0 where
  exact model_summary mechanical : ForkCompactionMethod

pub record ForkPreparation (V : Type 0) : Type 0 where
  pub session : SessionState V
  pub context_before_bytes : ℕ
  pub context_after_bytes : ℕ
  pub method : ForkCompactionMethod

pub record HarnessConfig : Type 0 where
  pub system_prompt : Text
  pub max_steps : ℕ
  pub max_context_item_bytes : ℕ
  pub max_user_input_bytes : ℕ
  pub max_model_response_bytes : ℕ
  pub max_tool_calls_per_step : ℕ
  pub max_tool_output_bytes : ℕ
  pub max_context_bytes : ℕ
  pub context_limit_behavior : ContextLimitBehavior

-- builtin/prompts/system/default.md is data; the prompt is an argument
unfoldable pub default_config : Text → HarnessConfig
default_config system_prompt = record {
  system_prompt = system_prompt;
  max_steps = 8;
  max_context_item_bytes = 8192;
  max_user_input_bytes = 32768;
  max_model_response_bytes = 16777216;
  max_tool_calls_per_step = 8;
  max_tool_output_bytes = 16384;
  max_context_bytes = 67108864;
  context_limit_behavior = ContextLimitBehavior.compact;
}

unfoldable pub with_copilot_loop : HarnessConfig → HarnessConfig
with_copilot_loop c = record c {
  max_steps = 0;
  context_limit_behavior = ContextLimitBehavior.compact;
}

pub record RunOutcome (V : Type 0) : Type 0 where
  pub final_text : Text
  pub messages : List (Message V)
  pub steps : ℕ
  pub stop_reason : StopReason

pub data HarnessError (E : Type 0) : Type 0 where
  model : E → HarnessError E
  compaction thread execution_journal needs_reconciliation : Text → HarnessError E
  limit : LimitExceeded → HarnessError E

pub record ModelRequest (V : Type 0) : Type 0 where
  pub system_prompt : Text
  pub messages : List (Message V)
  pub tools : List (ToolSpec V)
  pub allowed_tools : Option (List Text)
  pub max_response_bytes : ℕ
  pub model_selection : Option ModelSelection
  pub reasoning_selection : Option ReasoningSelection
  pub reasoning_effort : Option Text

-- `Model::respond` is the provider's, and may change the world.
abbrev pub Model : Type 0 → Type 0 → Type 0 → Type 0
Model V W E = ModelRequest V → W → W × Result E (ModelResponse V)

pub record Harness (V W E : Type 0) : Type 0 where
  pub model : Model V W E
  pub tools : ToolRouter V W
  pub config : HarnessConfig
  pub session : SessionState V
  pub pending_context_injections : List (Text × ContextInjectionRecord)
  pub model_selection : Option ModelSelection
  pub reasoning_selection : Option ReasoningSelection
  pub reasoning_effort : Option Text

module _ {V W E : Type 0} where
  unfoldable pub new : Model V W E → ToolRouter V W → HarnessConfig → Harness V W E
  new provider tools config = record {
    model = provider;
    tools = tools;
    config = config;
    session = State.new;
    pending_context_injections = [];
    model_selection = none;
    reasoning_selection = none;
    reasoning_effort = none;
  }

  unfoldable pub set_model_selection :
      Option ModelSelection → Option Text → Harness V W E → Harness V W E
  set_model_selection selection effort h = record h {
    model_selection = selection;
    reasoning_selection = none;
    reasoning_effort = effort;
  }

  unfoldable pub set_model_preferences :
      Option ModelSelection
      → Option ReasoningSelection
      → Option Text
      → Harness V W E
      → Harness V W E
  set_model_preferences selection reasoning effort h = record h {
    model_selection = selection;
    reasoning_selection = reasoning;
    reasoning_effort = effort;
  }

  unfoldable pub set_system_prompt : Text → Harness V W E → Harness V W E
  set_system_prompt prompt h = record h { config = record h.config { system_prompt = prompt } }

  unfoldable pub replace_config : HarnessConfig → Harness V W E → Harness V W E
  replace_config config h = record h { config = config }
