-- ===== src/Thread/Checkpoints.antt =====
-- crates/mini-agent-core/src/thread.rs: a checkpoint taken and restored.
use mathlib.Core.Path.{subst}
use mini_agent_harness.Prelude.{
  ℕ, ◌-◌, ◌≤◌, ◌≡◌, ◌≢◌, refl, sym, ap, ◌∙◌, Text, false, Option, none, some, is_some, List, [],
  length, max, ltb, arith,
}
use mini_agent_harness.Protocol.{
  Json, ThreadStatus, LimitKind, LimitExceeded, ContextInjectionRecord,
}
use mini_agent_harness.Session.State
use mini_agent_harness.Session.State.{SessionState}
use mini_agent_harness.Session.Groups.{repair_tool_groups}
use mini_agent_harness.Session.Settled.{IsSettled}
use mini_agent_harness.Session.Kept.{repair-eq_of_settled}
use mini_agent_harness.Session.Bytes.{context_bytes_for}
use mini_agent_harness.Tools.Router
use mini_agent_harness.Harness.Config.{Result, ok, err, Harness}
use mini_agent_harness.Harness.History.{
  check_limit, check_messages, inject_pending, restore_session,
}
use mini_agent_harness.Harness.Within.{IsWithin, IsWithin-Passes}
use mini_agent_harness.Thread.State.{
  ThreadError, Thread, ThreadCheckpoint, settled_checkpoint, checkpoint, restored,
  restore_checkpoint,
}

check_limit-fits : (kind : LimitKind) (limit n : ℕ) → n ≤ limit → check_limit kind limit n ≡ none
unfolding check_limit
check_limit-fits kind limit n h = rw small refl
  where
    small : ltb limit n ≡ false
    small = ground (arith, h)

none_of : {A : Type 0} (o : Option A) → is_some o ≡ false → o ≡ none
none_of none e = refl
none_of (some a) e = cc

module _ {V : Type 0} where
  repair_settled_session :
      (s : SessionState V) → IsSettled s.messages → (State.repair_incomplete_tool_groups s).0 ≡ s
  unfolding State.repair_incomplete_tool_groups
  repair_settled_session s h = rw same refl
    where
      same : ltb 0 (length s.messages - length (repair_tool_groups s.messages)) ≡ false
      same = ground (arith, ap length (repair-eq_of_settled s.messages h))

module _ {V W E : Type 0} (J : Json V) where
  -- A harness with no injection waiting, and a session with complete tool groups that meets its
  -- limits.
  abbrev pub Admits : Harness V W E → SessionState V → Type 0
  Admits h s =
      (h.pending_context_injections ≡ [])
      × ((IsSettled s.messages × IsWithin J h.config s.messages)
          × (context_bytes_for J h.config.system_prompt s.messages (Router.specs h.tools)
              ≤ h.config.max_context_bytes))

  abbrev emptied : Harness V W E → Harness V W E
  emptied h = record h { pending_context_injections = [] }

  restore_emptied :
      (h : Harness V W E) (s : SessionState V)
      → IsSettled s.messages
      → IsWithin J h.config s.messages
      → context_bytes_for J h.config.system_prompt s.messages (Router.specs h.tools)
        ≤ h.config.max_context_bytes
      → restore_session J s (emptied h) ≡ (record (emptied h) { session = s }, ok tt)
  unfolding restore_session inject_pending
  restore_emptied h s settled within fits =
      go (check_messages J h.config s.messages)
        (none_of _ (IsWithin-Passes J h.config s.messages within))
        (State.repair_incomplete_tool_groups s).0 (repair_settled_session s settled)
        (over (State.repair_incomplete_tool_groups s).0)
        (subst (λ x. over x ≡ none) (sym (repair_settled_session s settled))
          (check_limit-fits LimitKind.context_bytes h.config.max_context_bytes _ fits))
    where
      over : SessionState V → Option LimitExceeded
      over x =
          check_limit LimitKind.context_bytes h.config.max_context_bytes
            (context_bytes_for J h.config.system_prompt x.messages (Router.specs h.tools))

      go :
          (c : Option LimitExceeded)
          → c ≡ none
          → (x : SessionState V) → x ≡ s
          → (l : Option LimitExceeded) → l ≡ none
          → elim c as (λ _. Harness V W E × Result LimitExceeded Unit) [
            | some e ↦ (emptied h, err e)
            | none ↦ elim l as (λ _. Harness V W E × Result LimitExceeded Unit) [
              | some e ↦ (emptied h, err e)
              | none ↦ (record (emptied h) { session = x }, ok tt)
            ]
          ]
            ≡ (record (emptied h) { session = s }, ok tt)
      go none q x p none r =
          ap {A = SessionState V} (λ y. (record (emptied h) { session = y }, ok tt)) p
      go none q x p (some e) r = cc
      go (some e) q x p l r = cc

  restore_admitted :
      (h : Harness V W E) (s : SessionState V)
      → Admits h s
      → restore_session J s h ≡ (record h { session = s }, ok tt)
  restore_admitted h s (pending, ((settled, within), fits)) =
      subst (λ x. restore_session J s x ≡ (record x { session = s }, ok tt)) (sym alike)
        (restore_emptied h s settled within fits)
    where
      alike : h ≡ emptied h
      alike =
          ap {A = List (Text × ContextInjectionRecord)}
            (λ l. record h { pending_context_injections = l }) pending

  restored_admitted :
      (t u : Thread V W E)
      → Admits u.harness t.harness.session
      → 1 ≤ t.next_turn_number
      → 1 ≤ t.next_event_sequence
      → restored J (settled_checkpoint t) u
        ≡ (record t { harness = record u.harness { session = t.harness.session } }, ok tt)
  unfolding restored settled_checkpoint
  restored_admitted t u admits n s =
      rw
        (
          restored,
          restore_admitted u.harness t.harness.session admits,
          ap (λ p. p.0) (restore_admitted u.harness t.harness.session admits),
          one t.next_turn_number n,
          one t.next_event_sequence s,
        )
        refl
    where
      one : (n : ℕ) → 1 ≤ n → max n 1 ≡ n
      one n h = omega arith

  -- A Thread that is not in a Turn has a checkpoint. Where the history of its session has complete
  -- tool groups and its two counters are at least 1, a Thread that is not in a Turn, whose harness has
  -- no injection waiting and limits that the session's messages and its whole context meet, becomes
  -- that Thread by restoring the checkpoint: all its fields are the first one's, over its own harness
  -- with the first one's session.
  pub checkpoint-restore_checkpoint :
      (t u : Thread V W E)
      → t.status ≢ ThreadStatus.running
      → u.status ≢ ThreadStatus.running
      → Admits u.harness t.harness.session
      → 1 ≤ t.next_turn_number
      → 1 ≤ t.next_event_sequence
      → (c : ThreadCheckpoint V) × ((checkpoint t ≡ ok c)
          × (restore_checkpoint J c u
              ≡ (record t { harness = record u.harness { session = t.harness.session } }, ok tt)))
  checkpoint-restore_checkpoint t u settled idle admits n s = (
    settled_checkpoint t,
    (taken settled, not_running (settled_checkpoint t) idle ∙ restored_admitted t u admits n s),
  )
    where
      taken : t.status ≢ ThreadStatus.running → checkpoint t ≡ ok (settled_checkpoint t)
      taken h = unfold checkpoint in at t.status h
        where
          at :
              (q : ThreadStatus)
              → q ≢ ThreadStatus.running
              → elim q as (λ _. Result (ThreadError E) (ThreadCheckpoint V)) [
                | ThreadStatus.running ↦ err ThreadError.busy
                | ThreadStatus.idle ↦ ok (settled_checkpoint t)
                | ThreadStatus.awaiting_input ↦ ok (settled_checkpoint t)
                | ThreadStatus.failed ↦ ok (settled_checkpoint t)
                | ThreadStatus.closed ↦ ok (settled_checkpoint t)
              ]
                ≡ ok (settled_checkpoint t)
          at ThreadStatus.running h = absurd (h refl)
          at ThreadStatus.idle h = refl
          at ThreadStatus.awaiting_input h = refl
          at ThreadStatus.failed h = refl
          at ThreadStatus.closed h = refl

      not_running :
          (c : ThreadCheckpoint V)
          → u.status ≢ ThreadStatus.running
          → restore_checkpoint J c u ≡ restored J c u
      not_running c h = unfold restore_checkpoint in at u.status h
        where
          at :
              (q : ThreadStatus)
              → q ≢ ThreadStatus.running
              → elim q as (λ _. Thread V W E × Result (ThreadError E) Unit) [
                | ThreadStatus.running ↦ (u, err ThreadError.busy)
                | ThreadStatus.idle ↦ restored J c u
                | ThreadStatus.awaiting_input ↦ restored J c u
                | ThreadStatus.failed ↦ restored J c u
                | ThreadStatus.closed ↦ restored J c u
              ]
                ≡ restored J c u
          at ThreadStatus.running h = absurd (h refl)
          at ThreadStatus.idle h = refl
          at ThreadStatus.awaiting_input h = refl
          at ThreadStatus.failed h = refl
          at ThreadStatus.closed h = refl
