-- ===== src/Session/State.antt =====
-- crates/mini-agent-core/src/session.rs: `SessionState` and its methods. A method that mutates
-- returns the new state, with its result second where it has one.
use mini_agent_harness.Prelude.{
  ℕ, ◌-◌, Text, Bool, true, false, Option, none, some, List, [], ◌∷◌, ◌++◌, ◌&&◌, ◌||◌, not,
  text_eq, starts_with, strip_prefix, contains_text, starts_with_whitespace, length, take, keep,
  saturating_add, ltb, if◌then◌else◌,
}
use mini_agent_harness.Protocol.{Json, Message, ContextInjectionRecord, context}
use mini_agent_harness.Protocol.Injection
use mini_agent_harness.Session.Groups.{repair_tool_groups}

pub record SessionState (V : Type 0) : Type 0 where
  pub messages : List (Message V)
  pub context_revision : ℕ  -- u64

module _ {V : Type 0} where
  unfoldable pub new : SessionState V
  new = record { messages = []; context_revision = 0 }

  unfoldable pub from_messages : List (Message V) → SessionState V
  from_messages messages = record { messages = messages; context_revision = 0 }

  unfoldable pub replace_messages : List (Message V) → SessionState V → SessionState V
  replace_messages messages s = record {
    messages = messages;
    context_revision = saturating_add s.context_revision 1;
  }

  unfoldable pub truncate_messages : ℕ → SessionState V → SessionState V
  truncate_messages len s =
      if ltb len (length s.messages)
      then record {
        messages = take len s.messages;
        context_revision = saturating_add s.context_revision 1;
      }
      else s

  unfoldable pub clear : SessionState V → SessionState V
  clear s = record { messages = []; context_revision = saturating_add s.context_revision 1 }

  unfoldable pub push : Message V → SessionState V → SessionState V
  push m s = record {
    messages = s.messages ++ m ∷ [];
    context_revision = saturating_add s.context_revision 1;
  }

  unfoldable pub with_context_revision : ℕ → SessionState V → SessionState V
  with_context_revision revision s = record s { context_revision = revision }

  -- The state and the number of messages removed.
  unfoldable pub repair_incomplete_tool_groups : SessionState V → SessionState V × ℕ
  repair_incomplete_tool_groups s =
      let repaired = repair_tool_groups s.messages in
      let removed = length s.messages - length repaired in
      (if ltb 0 removed then replace_messages repaired s else s, removed)

-- `format!("<{slot}")`, then `>` or white space
unfoldable pub context_slot_matches : Text → Text → Bool
context_slot_matches text prefix = elim (strip_prefix prefix text) [
  | none ↦ false
  | some rest ↦ starts_with (b'>' ∷ []) rest || starts_with_whitespace rest
]

module _ {V : Type 0} where
  -- `iter().rev().find_map(..)`: the text of the last message in the slot
  unfoldable pub latest_in_slot : Text → List (Message V) → Option Text
  latest_in_slot prefix [] = none
  latest_in_slot prefix (context current ∷ ms) = elim (latest_in_slot prefix ms) [
    | some later ↦ some later
    | none ↦ if context_slot_matches current prefix then some current else none
  ]
  latest_in_slot prefix (m ∷ ms) = latest_in_slot prefix ms

  unfoldable pub append_context_slot_if_changed :
      Text → Text → SessionState V → SessionState V × Bool
  append_context_slot_if_changed slot text s = elim (latest_in_slot (b'<' ∷ slot) s.messages) [
    | none ↦ (push (context text) s, true)
    | some current ↦ if text_eq current text then (s, false) else (push (context text) s, true)
  ]

module _ {V : Type 0} (J : Json V) where
  add_injection :
      List ContextInjectionRecord → Option ContextInjectionRecord → List ContextInjectionRecord
  add_injection found none = found
  add_injection found (some r) = keep (λ old. not (text_eq old.id r.id)) found ++ r ∷ []

  -- the loop of `context_injections_from_messages`
  collect_injections : List ContextInjectionRecord → List (Message V) → List ContextInjectionRecord
  unfolding add_injection
  collect_injections found [] = found
  collect_injections found (context text ∷ ms) =
      collect_injections (add_injection found (Injection.from_context_message J text)) ms
  collect_injections found (m ∷ ms) = collect_injections found ms

  unfoldable pub context_injections_from_messages : List (Message V) → List ContextInjectionRecord
  unfolding collect_injections
  context_injections_from_messages = collect_injections []

  unfoldable pub context_injections : SessionState V → List ContextInjectionRecord
  context_injections s = context_injections_from_messages s.messages

-- `iter().find(|previous| previous.id == id)`
unfoldable pub find_record : Text → List ContextInjectionRecord → Option ContextInjectionRecord
find_record id [] = none
find_record id (r ∷ rs) = if text_eq r.id id then some r else find_record id rs

-- The text stands in the record's slot and carries its fingerprint.
unfoldable pub is_injection_of : Text → ContextInjectionRecord → Bool
is_injection_of text r = elim (strip_prefix (b'<' ∷ r.id) text) [
  | none ↦ false
  | some tail ↦
      (starts_with (b'>' ∷ []) tail || starts_with_whitespace tail)
      && contains_text (Injection.fingerprint_key ++ (b'"' ∷ r.fingerprint ++ b'"' ∷ [])) tail
]

module _ {V : Type 0} (J : Json V) where
  unfoldable pub push_injection :
      Text
      → ContextInjectionRecord
      → SessionState V
      → SessionState V × Option ContextInjectionRecord
  push_injection text r s = elim (Injection.replace_context_message_metadata J r text) [
    | none ↦ (s, none)
    | some text' ↦ (push (context text') s, some r)
  ]

  -- with the active record of the same id, if there is one
  unfoldable pub inject_over :
      Text
      → ContextInjectionRecord
      → SessionState V
      → Option ContextInjectionRecord
      → SessionState V × Option ContextInjectionRecord
  inject_over text r s none = push_injection text r s
  inject_over text r s (some previous) =
      if text_eq previous.fingerprint r.fingerprint
      then (s, none)
      else push_injection text (record r { supersedes = some previous.fingerprint }) s

  unfoldable pub append_context_injection :
      Text
      → ContextInjectionRecord
      → SessionState V
      → SessionState V × Option ContextInjectionRecord
  append_context_injection text r s =
      if not (is_injection_of text r)
      then (s, none)
      else inject_over text r s (find_record r.id (context_injections J s))
