-- ===== src/Protocol/Codec.antt =====
-- What the code takes from `serde_json`: sizes of serialised values and the codec of records.
use mini_agent_harness.Prelude.{ℕ, Text, Option, List}
use mini_agent_harness.Protocol.Model.{ContextInjectionRecord, Message, ToolCall}
use mini_agent_harness.Protocol.Tool.{ToolSpec}

pub record Json (V : Type 0) : Type 0 where
  -- `serde_json::to_vec(..).len()` of one message, and of lists
  pub message_len : Message V → ℕ
  pub messages_len : List (Message V) → ℕ
  pub specs_len : List (ToolSpec V) → ℕ
  pub calls_len : List (ToolCall V) → ℕ
  -- `serde_json::to_string` and `serde_json::from_str` of a context injection record
  pub encode_record : ContextInjectionRecord → Text
  pub decode_record : Text → Option ContextInjectionRecord
