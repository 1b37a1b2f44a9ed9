-- ===== src/Session/Bytes.antt =====
-- crates/mini-agent-core/src/session.rs: the byte counts of a model input.
use mini_agent_harness.Prelude.{
  ℕ, ◌+◌, Text, Bool, List, [], ◌∷◌, ◌||◌, codes, length, starts_with, saturating_add,
  if◌then◌else◌,
}
use mini_agent_harness.Protocol.{
  Json, Message, ToolSpec, ContextByteBreakdown, context, user, assistant, tool,
}
use mini_agent_harness.Session.State.{SessionState, context_slot_matches}

module _ {V : Type 0} (J : Json V) where
  unfoldable pub context_bytes_for : Text → List (Message V) → List (ToolSpec V) → ℕ
  context_bytes_for system_prompt messages specs =
      length system_prompt + J.messages_len messages + J.specs_len specs

  -- `SessionState::context_bytes`
  unfoldable pub context_bytes : Text → List (ToolSpec V) → SessionState V → ℕ
  context_bytes system_prompt specs s = context_bytes_for system_prompt s.messages specs

-- the three tests of a context message, in the order of the arms
unfoldable pub is_skill_text : Text → Bool
is_skill_text t =
    (context_slot_matches t (codes "<activated_skills")
      || context_slot_matches t (codes "<available_extensions"))
    || starts_with (codes "<skill_definition_") t

unfoldable pub is_workspace_text : Text → Bool
is_workspace_text t =
    context_slot_matches t (codes "<world_state")
    || context_slot_matches t (codes "<session_capabilities")

unfoldable pub is_instruction_text : Text → Bool
is_instruction_text = starts_with (codes "<workspace_instruction_")

module _ {V : Type 0} (J : Json V) where
  -- one round of the loop over the messages
  unfoldable pub count_message : Message V → ContextByteBreakdown → ContextByteBreakdown
  count_message (context t) b =
      let bytes = J.message_len (context t) in
      if is_skill_text t
      then record b { skills = saturating_add b.skills bytes }
      else if is_workspace_text t
      then record b { workspace_state = saturating_add b.workspace_state bytes }
      else if is_instruction_text t
      then record b { project_instructions = saturating_add b.project_instructions bytes }
      else record b { other = saturating_add b.other bytes }
  count_message (user t) b = record b {
    conversation = saturating_add b.conversation (J.message_len (user t));
  }
  count_message (assistant r t cs) b = record b {
    conversation = saturating_add b.conversation (J.message_len (assistant r t cs));
  }
  count_message (tool i n x e o) b = record b {
    conversation = saturating_add b.conversation (J.message_len (tool i n x e o));
  }

  unfoldable pub count_messages : List (Message V) → ContextByteBreakdown → ContextByteBreakdown
  count_messages [] b = b
  count_messages (m ∷ ms) b = count_messages ms (count_message m b)

  unfoldable pub context_byte_breakdown_for :
      Text → List (Message V) → List (ToolSpec V) → ContextByteBreakdown
  context_byte_breakdown_for system_prompt messages specs = count_messages messages (record {
    system_prompt = length system_prompt;
    project_instructions = 0;
    skills = 0;
    workspace_state = 0;
    conversation = 0;
    tools = J.specs_len specs;
    other = 0;
  })
