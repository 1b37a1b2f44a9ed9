-- ===== src/Harness/History.antt =====
-- crates/mini-agent-core/src/harness.rs: what may enter the history, and at which size.
use mini_agent_harness.Prelude.{
  ℕ, ◌+◌, Text, Bool, Option, none, some, is_some, List, [], ◌∷◌, ◌++◌, length, ltb, leb,
  if◌then◌else◌,
}
use mini_agent_harness.Protocol.{
  Json, Message, ToolSpec, ContextInjectionRecord, LimitExceeded, LimitKind, context, user,
  assistant, tool,
}
use mini_agent_harness.Protocol.Injection
use mini_agent_harness.Session.State
use mini_agent_harness.Session.State.{SessionState}
use mini_agent_harness.Session.Bytes.{context_bytes_for, context_bytes}
use mini_agent_harness.Tools.Router
use mini_agent_harness.Harness.Config.{Result, ok, err, HarnessConfig, Harness}

abbrev pub max_context_injection_bytes : ℕ
max_context_injection_bytes = 65536

-- `if actual > limit { return Err(..) }`
unfoldable pub check_limit : LimitKind → ℕ → ℕ → Option LimitExceeded
check_limit kind limit actual =
    if ltb limit actual then some (record { kind = kind; limit = limit; actual = actual }) else none

-- the first error of two checks
abbrev pub first_of : Option LimitExceeded → Option LimitExceeded → Option LimitExceeded
first_of (some e) later = some e
first_of none later = later

module _ {V : Type 0} (J : Json V) where
  unfoldable pub context_limit : HarnessConfig → Text → ℕ
  context_limit config text =
      if is_some (Injection.from_context_message J text)
      then max_context_injection_bytes
      else config.max_context_item_bytes

  -- the arms of the loop of `restore_session`
  unfoldable pub check_message : HarnessConfig → Message V → Option LimitExceeded
  unfolding context_limit
  check_message config (context t) =
      check_limit LimitKind.context_item_bytes (context_limit config t) (length t)
  check_message config (user t) =
      check_limit LimitKind.user_input_bytes config.max_user_input_bytes (length t)
  check_message config (assistant r t calls) =
      first_of
        (check_limit LimitKind.model_response_bytes config.max_model_response_bytes
          (length r + length t + J.calls_len calls))
        (check_limit LimitKind.tool_calls_per_step config.max_tool_calls_per_step (length calls))
  check_message config (tool id name content e o) =
      check_limit LimitKind.tool_output_bytes config.max_tool_output_bytes (length content)

  unfoldable pub check_messages : HarnessConfig → List (Message V) → Option LimitExceeded
  check_messages config [] = none
  check_messages config (m ∷ ms) = first_of (check_message config m) (check_messages config ms)

  keep_pending :
      Text
      → SessionState V × Option ContextInjectionRecord
      → SessionState V × List (Text × ContextInjectionRecord)
      → SessionState V × List (Text × ContextInjectionRecord)
  keep_pending text (s, none) (s', pending) = (s', pending)
  keep_pending text (s, some r) (s', pending) = (s', (text, r) ∷ pending)

  -- the first loop of `restore_session`
  unfoldable pub inject_pending :
      List (Text × ContextInjectionRecord)
      → SessionState V
      → SessionState V × List (Text × ContextInjectionRecord)
  unfolding keep_pending
  inject_pending [] s = (s, [])
  inject_pending ((text, r) ∷ rs) s =
      let appended = State.append_context_injection J text r s in
      keep_pending text appended (inject_pending rs appended.0)

module _ {V W E : Type 0} where
  unfoldable pub validate_user_input : Text → Harness V W E → Option LimitExceeded
  validate_user_input text h =
      check_limit LimitKind.user_input_bytes h.config.max_user_input_bytes (length text)

  unfoldable pub clear_history : Harness V W E → Harness V W E
  clear_history h = record h { session = State.clear h.session }

  -- `append_context` and `append_user_input`, after the check of the length
  unfoldable pub push_checked :
      Option LimitExceeded → Message V → Harness V W E → Harness V W E × Result LimitExceeded Unit
  push_checked (some e) m h = (h, err e)
  push_checked none m h = (record h { session = State.push m h.session }, ok tt)

  unfoldable pub append_context : Text → Harness V W E → Harness V W E × Result LimitExceeded Unit
  unfolding push_checked
  append_context text h =
      push_checked
        (check_limit LimitKind.context_item_bytes h.config.max_context_item_bytes (length text))
        (context text) h

  unfoldable pub append_user_input :
      Text → Harness V W E → Harness V W E × Result LimitExceeded Unit
  unfolding push_checked
  append_user_input text h =
      push_checked
        (check_limit LimitKind.user_input_bytes h.config.max_user_input_bytes (length text))
        (user text) h

  unfoldable pub append_context_slot_if_changed :
      Text → Text → Harness V W E → Harness V W E × Result LimitExceeded Bool
  append_context_slot_if_changed slot text h =
      elim (check_limit LimitKind.context_item_bytes h.config.max_context_item_bytes
        (length text)) [
          | some e ↦ (h, err e)
          | none ↦
              let (s, changed) = State.append_context_slot_if_changed slot text h.session in
              (record h { session = s }, ok changed)
        ]

module _ {V W E : Type 0} (J : Json V) where
  injected :
      Text
      → Harness V W E
      → SessionState V × Option ContextInjectionRecord
      → Harness V W E × Result LimitExceeded (Option ContextInjectionRecord)
  injected text h (s, none) = (record h { session = s }, ok none)
  injected text h (s, some r) = (
    record h {
      session = s;
      pending_context_injections = h.pending_context_injections ++ (text, r) ∷ [];
    },
    ok (some r),
  )

  unfoldable pub append_context_injection :
      Text
      → ContextInjectionRecord
      → Harness V W E
      → Harness V W E × Result LimitExceeded (Option ContextInjectionRecord)
  unfolding injected
  append_context_injection text r h =
      elim (check_limit LimitKind.context_item_bytes max_context_injection_bytes (length text)) [
        | some e ↦ (h, err e)
        | none ↦ injected text h (State.append_context_injection J text r h.session)
      ]

  unfoldable pub ensure_context_limit : List (ToolSpec V) → Harness V W E → Option LimitExceeded
  ensure_context_limit specs h =
      let actual = context_bytes J h.config.system_prompt specs h.session in
      if leb actual h.config.max_context_bytes
      then none
      else some (record {
        kind = LimitKind.context_bytes;
        limit = h.config.max_context_bytes;
        actual = actual;
      })

  -- the end of `restore_session`, after the checks of the messages
  restore_checked :
      SessionState V
      → List (Text × ContextInjectionRecord)
      → Harness V W E
      → Harness V W E × Result LimitExceeded Unit
  restore_checked session pending h =
      elim (check_limit LimitKind.context_bytes h.config.max_context_bytes
        (context_bytes_for J h.config.system_prompt session.messages (Router.specs h.tools))) [
          | some e ↦ (h, err e)
          | none ↦ (record h { session = session; pending_context_injections = pending }, ok tt)
        ]

  unfoldable pub restore_session :
      SessionState V → Harness V W E → Harness V W E × Result LimitExceeded Unit
  unfolding restore_checked
  restore_session session h =
      let (injected_session, pending) = inject_pending J h.pending_context_injections session in
      elim (check_messages J h.config injected_session.messages) [
        | some e ↦ (h, err e)
        | none ↦ restore_checked (State.repair_incomplete_tool_groups injected_session).0 pending h
      ]

  unfoldable pub restore_history :
      List (Message V) → Harness V W E → Harness V W E × Result LimitExceeded Unit
  restore_history messages = restore_session (State.from_messages messages)
