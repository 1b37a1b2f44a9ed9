-- ===== src/Compaction/Shrink.antt =====
-- crates/mini-agent-core/src/context_controller.rs: the loops that drop the oldest message groups.
use mini_agent_harness.Prelude.{
  ℕ, zero, suc, Text, Bool, Option, none, some, List, [], ◌∷◌, ◌++◌, ◌||◌, length, is_nil, ltb, leb,
  if◌then◌else◌,
}
use mini_agent_harness.Protocol.{Json, Message, ToolSpec, user, assistant, tool}
use mini_agent_harness.Session.Bytes.{context_bytes_for}
use mini_agent_harness.Tools.Truncate.{truncate_utf8}
use mini_agent_harness.Prelude.{codes}

-- builtin/prompts/system/compaction.md is data; the prompt's text is an argument
unfoldable pub bounded_compaction_prompt : Text → ℕ → Text
bounded_compaction_prompt prompt max_user_input_bytes = truncate_utf8 prompt max_user_input_bytes

abbrev pub compaction_prefix : Text
compaction_prefix = codes "[Compacted conversation context]"

module _ {V : Type 0} where
  -- `while matches!(messages.first(), Some(Tool)) { messages.remove(0) }`
  unfoldable pub drop_tools : List (Message V) → List (Message V)
  drop_tools (tool i n x e o ∷ ms) = drop_tools ms
  drop_tools ms = ms

  unfoldable pub remove_first_message_group : List (Message V) → List (Message V)
  remove_first_message_group [] = []
  remove_first_message_group (assistant r t (c ∷ cs) ∷ ms) = drop_tools (drop_tools ms)
  remove_first_message_group (m ∷ ms) = drop_tools ms

  -- does the prefix with the prompt fit?
  unfoldable pub request_fits :
      Json V → Text → Text → List (ToolSpec V) → ℕ → List (Message V) → Bool
  request_fits J prompt system_prompt specs max_bytes prefix =
      leb (context_bytes_for J system_prompt (prefix ++ user prompt ∷ []) specs) max_bytes

  -- Each round drops a message at least, so the length of the prefix is enough fuel.
  unfoldable pub trim_loop :
      Json V → Text → Text → List (ToolSpec V) → ℕ → ℕ → List (Message V) → List (Message V)
  trim_loop J prompt system_prompt specs max_bytes zero prefix = prefix
  trim_loop J prompt system_prompt specs max_bytes (suc fuel) prefix =
      let rest =
        trim_loop J prompt system_prompt specs max_bytes fuel (remove_first_message_group prefix) in
      if is_nil prefix
      then prefix
      else if request_fits J prompt system_prompt specs max_bytes prefix
      then prefix
      else rest

  unfoldable pub trim_prefix_to_fit :
      Json V → Text → Text → List (ToolSpec V) → ℕ → List (Message V) → List (Message V)
  trim_prefix_to_fit J prompt system_prompt specs max_bytes prefix =
      trim_loop J prompt system_prompt specs max_bytes (length prefix) prefix

  summary_message : Option Text → ℕ → List (Message V)
  summary_message none max_user_input_bytes = []
  summary_message (some summary) max_user_input_bytes =
      user (truncate_utf8 (compaction_prefix ++ (10 ∷ summary)) max_user_input_bytes) ∷ []

  unfoldable pub assemble_compacted :
      Option Text → List (Message V) → List (Message V) → ℕ → List (Message V)
  unfolding summary_message
  assemble_compacted summary contexts tail max_user_input_bytes =
      summary_message summary max_user_input_bytes ++ (contexts ++ tail)

  -- the loop of `mechanical_compact`, with the rest of the history assembled once
  unfoldable pub mechanical_loop :
      Json V
      → Text
      → List (ToolSpec V)
      → ℕ
      → List (Message V)
      → ℕ
      → List (Message V)
      → List (Message V)
  mechanical_loop J system_prompt specs compact_at compacted zero prefix = prefix ++ compacted
  mechanical_loop J system_prompt specs compact_at compacted (suc fuel) prefix =
      let rest =
        mechanical_loop J system_prompt specs compact_at compacted fuel
          (remove_first_message_group prefix) in
      if is_nil prefix
        || ltb (context_bytes_for J system_prompt (prefix ++ compacted) specs) compact_at
      then prefix ++ compacted
      else rest

  unfoldable pub mechanical_compact :
      Json V
      → List (Message V)
      → List (Message V)
      → List (Message V)
      → ℕ
      → Text
      → List (ToolSpec V)
      → ℕ
      → List (Message V)
  mechanical_compact J prefix contexts tail compact_at system_prompt specs max_user_input_bytes =
      mechanical_loop J system_prompt specs compact_at
        (assemble_compacted none contexts tail max_user_input_bytes) (length prefix) prefix
