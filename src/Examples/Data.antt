-- ===== src/Examples/Data.antt =====
-- Inputs that the examples share. A value of `serde_json` is a number here, and its length is made up.
use mini_agent_harness.Prelude.{refl, ℕ, ◌+◌, ◌*◌, false, none, List, [], ◌∷◌, codes, length}
use mini_agent_harness.Protocol.{
  Json, Message, ToolCall, TurnInput, TurnInputMode, ToolExecutionStatus, context, user, assistant,
  tool,
}
use mini_agent_harness.Input.Queue.{Capacities}
use mini_agent_harness.Session.Groups.{call_ids, extend_ids}
use mini_agent_harness.Session.Settled.{IsSettled}
use mini_agent_harness.Tools.Router.{ToolRouter}
use mini_agent_harness.Harness.Config.{Harness, HarnessConfig, ContextLimitBehavior, err}

abbrev pub json : Json ℕ
json = record {
  message_len = λ m. 10;
  messages_len = λ ms. 2 + 10 * length ms;
  specs_len = λ s. 2;
  calls_len = λ c. 2;
  encode_record = λ r. [];
  decode_record = λ t. none;
}

abbrev pub call_a : ToolCall ℕ
call_a = record { id = codes "a"; name = codes "read"; arguments = 1 }

abbrev pub call_b : ToolCall ℕ
call_b = record { id = codes "b"; name = codes "read"; arguments = 2 }

abbrev pub answer_a : Message ℕ
answer_a = tool (codes "a") (codes "read") (codes "x") false none

abbrev pub answer_b : Message ℕ
answer_b = tool (codes "b") (codes "read") (codes "y") false none

abbrev pub request : Message ℕ
request = assistant [] (codes "look") (call_a ∷ call_b ∷ [])

-- a complete group, and one that an interrupt left open
abbrev pub settled_history : List (Message ℕ)
settled_history =
    user (codes "hi")
    ∷ request
    ∷ answer_a
    ∷ answer_b
    ∷ assistant [] (codes "one") []
    ∷ context (codes "<w>\n")
    ∷ user (codes "go")
    ∷ assistant [] (codes "two") []
    ∷ []

pub settled_history-IsSettled : IsSettled settled_history
unfolding extend_ids call_ids
settled_history-IsSettled = refl

abbrev pub open_history : List (Message ℕ)
open_history = user (codes "hi") ∷ request ∷ answer_a ∷ user (codes "go") ∷ []

abbrev pub capacities : Capacities
capacities = record { text_capacity = λ t. length t; texts_capacity = λ ts. length ts }

abbrev pub input : TurnInputMode → TurnInput
input mode = record {
  mode = mode;
  text = codes "go on";
  selected_skills = [];
  workflow = none;
  model_selection = none;
  reasoning_selection = none;
  reasoning_effort = none;
  steer_request_id = none;
}

abbrev pub config : HarnessConfig
config = record {
  system_prompt = codes "be brief";
  max_steps = 8;
  max_context_item_bytes = 8192;
  max_user_input_bytes = 32768;
  max_model_response_bytes = 1024;
  max_tool_calls_per_step = 8;
  max_tool_output_bytes = 16384;
  max_context_bytes = 120;
  context_limit_behavior = ContextLimitBehavior.compact;
}

abbrev pub router : ToolRouter ℕ Unit
router = record {
  tools = [];
  executor = λ t r w. (
    w,
    record {
      status = ToolExecutionStatus.completed;
      content = [];
      output_truncated = false;
      context_messages = [];
      context_injections = [];
    },
  );
  hidden_tools = [];
}

-- a harness whose model always fails
abbrev pub harness : Harness ℕ Unit Unit
harness = record {
  model = λ r w. (w, err tt);
  tools = router;
  config = config;
  session = record { messages = settled_history; context_revision = 8 };
  pending_context_injections = [];
  model_selection = none;
  reasoning_selection = none;
  reasoning_effort = none;
}
