-- ===== src/Harness/Restored.antt =====
-- crates/mini-agent-core/src/harness.rs: what `restore_session` answers for.
use mathlib.Core.List.{Sublistᴰ}
use mathlib.Core.Path.{subst}
use mathlib.Core.Logic.{∥∥₁_elim}
use mathlib.Core.Bool.{Bool-set}
use mini_agent_harness.Prelude.{
  ℕ, ◌-◌, ◌≤◌, ◌≡◌, refl, ap, ◌∙◌, inl, inr, Bool, true, false, Bool-cases, Option, none, some,
  is_some, List, length, ltb, arith,
}
use mini_agent_harness.Protocol.{Json, Message, LimitExceeded, LimitKind}
use mini_agent_harness.Session.State
use mini_agent_harness.Session.State.{SessionState}
use mini_agent_harness.Session.Groups.{repair_tool_groups}
use mini_agent_harness.Session.Settled.{settled_from, IsSettled, repair-IsSettled}
use mini_agent_harness.Session.Kept.{Sublist-repair}
use mini_agent_harness.Session.Bytes.{context_bytes_for}
use mini_agent_harness.Tools.Router
use mini_agent_harness.Harness.Config.{Result, ok, err, HarnessConfig, Harness}
use mini_agent_harness.Harness.Within.{
  check_limit-bound, later, first, both, Passes, IsWithin, Passes-IsWithin,
}
use mini_agent_harness.Harness.History.{
  check_limit, check_message, check_messages, inject_pending, restore_session,
}

length-Sublistᴰ : {A : Type 0} {xs ys : List A} → Sublistᴰ xs ys → length xs ≤ length ys
length-Sublistᴰ Sublistᴰ.slnil = omega arith
length-Sublistᴰ (Sublistᴰ.cons d) = omega (arith, length-Sublistᴰ d)
length-Sublistᴰ (Sublistᴰ.cons-cons e d) = omega (arith, length-Sublistᴰ d)

-- a sublist that is no shorter is the list
whole : {A : Type 0} {xs ys : List A} → Sublistᴰ xs ys → length ys ≤ length xs → xs ≡ ys
whole Sublistᴰ.slnil h = refl
whole (Sublistᴰ.cons d) h = absurd (omega (arith, length-Sublistᴰ d))
whole (Sublistᴰ.cons-cons e d) h = cc (e, whole d (omega arith))

module _ {V : Type 0} (J : Json V) where
  Passes-Sublistᴰ :
      (config : HarnessConfig) {xs ys : List (Message V)}
      → Sublistᴰ xs ys
      → Passes J config ys
      → Passes J config xs
  unfolding check_messages
  Passes-Sublistᴰ config Sublistᴰ.slnil h = refl
  Passes-Sublistᴰ config (Sublistᴰ.cons {a} {l₂} d) h =
      Passes-Sublistᴰ config d (later (check_message J config a) (check_messages J config l₂) h)
  Passes-Sublistᴰ config (Sublistᴰ.cons-cons {a} {b} {l₁} {l₂} e d) h =
      both (check_message J config a) (check_messages J config l₁)
        (ap (λ m. is_some (check_message J config m)) e
          ∙ first (check_message J config b) (check_messages J config l₂) h)
        (Passes-Sublistᴰ config d (later (check_message J config b) (check_messages J config l₂) h))

  -- what the repaired history passes, the repaired session passes
  pub repaired_session :
      (f : List (Message V) → Bool) (b : Bool) (s : SessionState V)
      → f (repair_tool_groups s.messages) ≡ b
      → f (State.repair_incomplete_tool_groups s).0.messages ≡ b
  unfolding State.repair_incomplete_tool_groups State.replace_messages
  repaired_session f b s h =
      elim (Bool-cases (ltb 0 (length s.messages - length (repair_tool_groups s.messages)))) [
        | inl fewer ↦ rw fewer h
        | inr same ↦ rw same (
            ∥∥₁_elim (Sublist-repair s.messages) (Bool-set _ _)
              λ d. subst (λ l. f l ≡ b) (whole d (ground (arith, same))) h)
      ]

  repaired-Passes :
      (config : HarnessConfig) (ms : List (Message V))
      → Passes J config ms
      → Passes J config (repair_tool_groups ms)
  repaired-Passes config ms h =
      ∥∥₁_elim (Sublist-repair ms) (Bool-set _ _) (λ d. Passes-Sublistᴰ config d h)

  module _ {W E : Type 0} where
    -- What `restore_session` answers about the harness it leaves: the history is settled, each message
    -- is within the limits of its kind and the whole within the limit of the context, and only the session and the
    -- pending injections have changed; or the harness is the one before, where it refuses.
    abbrev pub Restored : Harness V W E → Harness V W E → Result LimitExceeded Unit → Type 0
    Restored h h' (err e) = h' ≡ h
    Restored h h' (ok _) =
        (IsSettled h'.session.messages × IsWithin J h.config h'.session.messages)
        × ((context_bytes_for J h.config.system_prompt h'.session.messages (Router.specs h.tools)
              ≤ h.config.max_context_bytes)
            × (record h' {
              session = h.session;
              pending_context_injections = h.pending_context_injections;
            }
                ≡ h))

    -- `restore_session` leaves a session with complete tool groups that meets every limit of the
    -- configuration, or changes nothing.
    pub restore_session-Restored :
        (s : SessionState V) (h : Harness V W E)
        → let (h', r) = restore_session J s h in Restored h h' r
    unfolding restore_session
    restore_session-Restored s h =
        go (check_messages J h.config injected.messages) refl
          (check_limit LimitKind.context_bytes h.config.max_context_bytes bytes) refl
      where
        injected : SessionState V
        injected = (inject_pending J h.pending_context_injections s).0

        repaired : SessionState V
        repaired = (State.repair_incomplete_tool_groups injected).0

        bytes : ℕ
        bytes = context_bytes_for J h.config.system_prompt repaired.messages (Router.specs h.tools)

        go :
            (c : Option LimitExceeded)
            → check_messages J h.config injected.messages ≡ c
            → (l : Option LimitExceeded)
            → check_limit LimitKind.context_bytes h.config.max_context_bytes bytes ≡ l
            → let answer : Harness V W E × Result LimitExceeded Unit = elim c [
              | some e ↦ (h, err e)
              | none ↦ elim l [
                | some e ↦ (h, err e)
                | none ↦ (
                  record h {
                    session = repaired;
                    pending_context_injections =
                        (inject_pending J h.pending_context_injections s).1;
                  },
                  ok tt,
                )
              ]
            ] in
              Restored h answer.0 answer.1
        go (some e) within l fits = refl
        go none within (some e) fits = refl
        go none within none fits = (
          (
            repaired_session (settled_from none) true injected (repair-IsSettled injected.messages),
            Passes-IsWithin J h.config repaired.messages (
                repaired_session (λ l. is_some (check_messages J h.config l)) false injected
                  (repaired-Passes h.config injected.messages (ap is_some within))),
          ),
          (check_limit-bound LimitKind.context_bytes h.config.max_context_bytes bytes fits, refl),
        )
