-- ===== src/Batch/Replies.antt =====
-- crates/mini-agent-core/src/tool_batch_executor.rs: what the calls of a batch append.
use mini_agent_harness.Prelude.{
  ℕ, ◌≤◌, ◌≡◌, refl, sym, ap, ◌∙◌, Text, Bool, Option, none, some, List, ◌∷◌, [], ◌++◌, append-nil,
  append_assoc, true, false, if◌then◌else◌, length, arith,
}
use mini_agent_harness.Protocol.{
  Event, Message, ToolCall, ToolExecutionOutcome, tool, tool_started, context, user, assistant,
}
use mini_agent_harness.Session.State
use mini_agent_harness.Protocol.Outcome
use mini_agent_harness.Tools.Cuts.{length-truncate_utf8}
use mini_agent_harness.Batch.Monad.{
  Options, BatchState, ok, pure, read_cancel, observe, push_message, ◌>>=◌, ◌>>◌,
}
use mini_agent_harness.Batch.Record.{journal_finished, publish_result, record_tool_result}
use mini_agent_harness.Batch.Execute.{
  Carried, carry, skip_call, not_started_text, journal_started, run_tool, decide_outcome,
  start_call, run_call, run_calls,
}
use mini_agent_harness.Batch.Inversion.{>>=-eq-ok, >>-eq-ok, append_journal_ok}

-- A tool message with the call's id and name, and a content within the limit.
abbrev pub ReplyTo : {V : Type 0} → ℕ → ToolCall V → Message V → Type 0
ReplyTo n c (tool id name content e o) = (id ≡ c.id) × (name ≡ c.name) × (length content ≤ n)
ReplyTo n c (context t) = ⊥
ReplyTo n c (user t) = ⊥
ReplyTo n c (assistant r t cs) = ⊥

-- One such message for each call, in order.
abbrev pub Replies : {V : Type 0} → ℕ → List (ToolCall V) → List (Message V) → Type 0
Replies n [] [] = Unit
Replies n [] (m ∷ ms) = ⊥
Replies n (c ∷ cs) [] = ⊥
Replies n (c ∷ cs) (m ∷ ms) = ReplyTo n c m × Replies n cs ms

module _ {V W : Type 0} (o : Options V W) where
  abbrev pub AddsReply : ToolCall V → BatchState V W → BatchState V W → Type 0
  AddsReply call s t =
      (m : Message V) × ReplyTo o.max_output_bytes call m
      × (t.session.messages ≡ s.session.messages ++ m ∷ [])

  pub publish-AddsReply :
      (call : ToolCall V) (r : ToolExecutionOutcome) (s t : BatchState V W)
      → publish_result o call r s ≡ (t, ok tt)
      → AddsReply call s t
  unfolding publish_result observe push_message State.push ◌>>◌
  publish-AddsReply call r s t h =
      let e : (publish_result o call r s).0 ≡ t = ap (λ p. p.0) h in
      (
        _,
        (refl, refl, length-truncate_utf8 r.content o.max_output_bytes),
        ap (λ (u : BatchState V W). u.session.messages) (sym e),
      )

  journal_finished-session :
      (call : ToolCall V) (r : ToolExecutionOutcome) (turn : Option Text) (s t : BatchState V W)
      → journal_finished o call r turn s ≡ (t, ok tt)
      → t.session ≡ s.session
  unfolding journal_finished pure
  journal_finished-session call r none s t h = ap (λ p. p.0.session) (sym h)
  journal_finished-session call r (some turn) s t h =
      ap (λ (u : BatchState V W). u.session) (append_journal_ok o _ s h).1

  journal_started-session :
      (call : ToolCall V) (turn : Option Text) (s t : BatchState V W)
      → journal_started o call turn s ≡ (t, ok tt)
      → t.session ≡ s.session
  unfolding journal_started pure
  journal_started-session call none s t h = ap (λ p. p.0.session) (sym h)
  journal_started-session call (some turn) s t h =
      ap (λ (u : BatchState V W). u.session) (append_journal_ok o _ s h).1

  record-AddsReply :
      (call : ToolCall V) (r : ToolExecutionOutcome) (s t : BatchState V W)
      → record_tool_result o call r s ≡ (t, ok tt)
      → AddsReply call s t
  unfolding record_tool_result
  record-AddsReply call r s t h =
      let (u, e, g) =
        >>-eq-ok (journal_finished o call r o.turn_id) (publish_result o call r) s h in
      let (m, reply, q) = publish-AddsReply call r u t g in
      (
        m,
        reply,
        q ∙ ap (λ x. x.messages ++ m ∷ []) (journal_finished-session call r o.turn_id s u e),
      )

  decide-session :
      (call : ToolCall V) (replan : Bool) (s : BatchState V W)
      → (decide_outcome o call replan s).0.session ≡ s.session
  unfolding decide_outcome ◌>>=◌ read_cancel pure run_tool
  decide-session call replan s = ground arith

  pub observe-session :
      (e : Event V) (s t : BatchState V W) → observe e s ≡ (t, ok tt) → t.session ≡ s.session
  unfolding observe
  observe-session e s t h = ap (λ p. p.0.session) (sym h)

  pub pure-session :
      {A : Type 0} (a : A) (s t : BatchState V W) {b : A}
      → pure a s ≡ (t, ok b)
      → t.session.messages ≡ s.session.messages
  unfolding pure
  pure-session a s t h = ap (λ p. p.0.session.messages) (sym h)

  start-AddsReply :
      (call : ToolCall V) (k : Carried) (s t : BatchState V W) {k' : Carried}
      → start_call o call k s ≡ (t, ok k')
      → AddsReply call s t
  unfolding start_call
  start-AddsReply call k s t h =
      let (s1, e1, h1) = >>-eq-ok (journal_started o call o.turn_id) _ s h in
      let (s2, e2, h2) = >>-eq-ok (observe (tool_started call)) _ s1 h1 in
      let (s3, outcome, e3, h3) =
        >>=-eq-ok (decide_outcome o call k.replan_after_injection) _ s2 h2 in
      let (s4, e4, h4) = >>-eq-ok (record_tool_result o call outcome) _ s3 h3 in
      let (m, reply, q) = record-AddsReply call outcome s3 s4 e4 in
      let before : s3.session ≡ s.session =
        ap (λ p. p.0.session) (sym e3)
        ∙ decide-session call k.replan_after_injection s2
        ∙ observe-session (tool_started call) s1 s2 e2
        ∙ journal_started-session call o.turn_id s s1 e1 in
      (m, reply, pure-session (carry k outcome) s4 t h4 ∙ q ∙ ap (λ x. x.messages ++ m ∷ []) before)

  run_call-AddsReply :
      (call : ToolCall V) (k : Carried) (s t : BatchState V W) {k' : Carried}
      → run_call o call k s ≡ (t, ok k')
      → AddsReply call s t
  unfolding run_call skip_call
  run_call-AddsReply call k s t {k'} h =
      let (s1, cancelled, e1, h1) = >>=-eq-ok (read_cancel o) _ s h in
      let (m, reply, q) = go s1 cancelled h1 in
      (m, reply, q ∙ ap (λ x. x ++ m ∷ []) (read-messages s s1 e1))
    where
      read-messages :
          (s s1 : BatchState V W) {b : Bool}
          → read_cancel o s ≡ (s1, ok b)
          → s1.session.messages ≡ s.session.messages
      read-messages s s1 e = (unfold read_cancel in ap (λ p. p.0.session.messages) (sym e))

      go :
          (u : BatchState V W) (cancelled : Bool)
          → (if cancelled then skip_call o call k else start_call o call k) u ≡ (t, ok k')
          → AddsReply call u t
      go u true g =
          let (s2, e2, h2) =
            >>-eq-ok (record_tool_result o call (Outcome.cancelled not_started_text)) _ u g in
          let (m, reply, q) = record-AddsReply call _ u s2 e2 in
          (m, reply, pure-session k s2 t h2 ∙ q)
      go u false g = start-AddsReply call k u t g

  -- What a batch without a journal error appends to the session: one bounded reply for each call.
  pub run_calls-Replies :
      (calls : List (ToolCall V)) (k : Carried) (s t : BatchState V W) {k' : Carried}
      → run_calls o calls k s ≡ (t, ok k')
      → (ms : List (Message V)) × Replies o.max_output_bytes calls ms
        × (t.session.messages ≡ s.session.messages ++ ms)
  unfolding run_calls
  run_calls-Replies [] k s t h = ([], tt, pure-session k s t h ∙ sym (append-nil _))
  run_calls-Replies (call ∷ calls) k s t h =
      let (u, k1, e, g) = >>=-eq-ok (run_call o call k) _ s h in
      let (m, reply, q) = run_call-AddsReply call k s u e in
      let (ms, replies, r) = run_calls-Replies calls k1 u t g in
      (
        m ∷ ms,
        (reply, replies),
        r ∙ ap (λ l. l ++ ms) q ∙ append_assoc s.session.messages (m ∷ []) ms,
      )
