-- ===== src/Batch/Recovered.antt =====
-- crates/mini-agent-core/src/tool_batch_executor.rs: the history and the calls of a recovered batch.
use mini_agent_harness.Prelude.{
  ◌≡◌, sym, ap, ◌∙◌, Text, Bool, true, false, Option, none, some, List, [], ◌∷◌, ◌++◌, ◌⊎◌,
  append-nil, append_assoc, Distinct, arith, inl, inr, All,
}
use mini_agent_harness.Protocol.{Message, ToolCall, ToolExecutionOutcome, assistant}
use mini_agent_harness.Session.Groups.{call_ids}
use mini_agent_harness.Session.Settled.{IsSettled}
use mini_agent_harness.Execution.{ToolBatchIntent, ExecutionToolCall, ExecutionToolBatch}
use mini_agent_harness.Batch.Monad.{
  Options, BatchState, Result, ok, err, pure, modify, append_journal,
}
use mini_agent_harness.Batch.Record.{publish_result}
use mini_agent_harness.Batch.Execute.{Carried, none_carried, carry, run_tool}
use mini_agent_harness.Batch.Inversion.{>>=-eq-ok, >>-eq-ok, append_journal_ok}
use mini_agent_harness.Batch.Replies.{
  AddsReply, Replies, publish-AddsReply, observe-session, pure-session,
}
use mini_agent_harness.Batch.Settles.{finish_contexts-IsSettled}
use mini_agent_harness.Batch.Uncertain.{IsReplayable, FirstUncertain, validate_calls-cases}
use mini_agent_harness.Batch.Recover.{
  Recovery, recovered, failed, needs_reconciliation, journal, unsettled_text,
  validate_tool_batch_recovery, announce_start, append_recovered_call, replay_call,
  settle_or_replay, recover_calls, recover_checked, journal_error, refuse_or_recover,
  recover_tool_batch,
}

-- the calls of a journaled batch
abbrev pub calls_of : {V : Type 0} → List (ExecutionToolCall V) → List (ToolCall V)
calls_of [] = []
calls_of (c ∷ cs) = c.call ∷ calls_of cs

module _ {V W : Type 0} (o : Options V W) (intent : ToolBatchIntent V) where
  announce_start-session :
      (started : Bool) (call : ToolCall V) (s t : BatchState V W)
      → announce_start started call s ≡ (t, ok tt)
      → t.session ≡ s.session
  unfolding announce_start pure
  announce_start-session true call s t h = observe-session o _ s t h
  announce_start-session false call s t h = ap (λ p. p.0.session) (sym h)

  append_journal-session :
      (s : BatchState V W) {t : BatchState V W} (e : _)
      → append_journal o e s ≡ (t, ok tt)
      → t.session ≡ s.session
  append_journal-session s e h =
      ap (λ (u : BatchState V W). u.session) (append_journal_ok o e s h).1

  append_recovered_call-AddsReply :
      (call : ToolCall V) (r : ToolExecutionOutcome) (started : Bool) (k : Carried)
      (s t : BatchState V W) {k' : Carried}
      → append_recovered_call o intent call r started k s ≡ (t, ok k')
      → AddsReply o call s t
  unfolding append_recovered_call
  append_recovered_call-AddsReply call r started k s t h =
      let (s1, e1, h1) = >>-eq-ok (announce_start started call) _ s h in
      let (s2, e2, h2) = >>-eq-ok (append_journal o _) _ s1 h1 in
      let (s3, e3, h3) = >>-eq-ok (publish_result o call r) _ s2 h2 in
      let (m, reply, q) = publish-AddsReply o call r s2 s3 e3 in
      (
        m,
        reply,
        pure-session o (carry k r) s3 t h3
            ∙ q
            ∙ ap (λ x. x.messages ++ m ∷ [])
                (append_journal-session s1 _ e2 ∙ announce_start-session started call s s1 e1),
      )

  run_tool-session :
      (call : ToolCall V) (s t : BatchState V W) {r : ToolExecutionOutcome}
      → run_tool o call s ≡ (t, ok r)
      → t.session ≡ s.session
  unfolding run_tool
  run_tool-session call s t h = ap (λ p. p.0.session) (sym h)

  replay_call-AddsReply :
      (call : ToolCall V) (k : Carried) (s t : BatchState V W) {k' : Carried}
      → replay_call o intent call k s ≡ (t, ok k')
      → AddsReply o call s t
  unfolding replay_call
  replay_call-AddsReply call k s t h =
      let (s1, e1, h1) = >>-eq-ok (append_journal o _) _ s h in
      let (s2, r, e2, h2) = >>=-eq-ok (run_tool o call) _ s1 h1 in
      let (m, reply, q) = append_recovered_call-AddsReply call r true k s2 t h2 in
      (
        m,
        reply,
        q
            ∙ ap (λ x. x.messages ++ m ∷ [])
                (run_tool-session call s1 s2 e2 ∙ append_journal-session s _ e1),
      )

  settle_or_replay-AddsReply :
      (call : ToolCall V) (started : Bool) (r : Option ToolExecutionOutcome) (k : Carried)
      (s t : BatchState V W) {k' : Carried}
      → settle_or_replay o intent call started r k s ≡ (t, ok k')
      → AddsReply o call s t
  unfolding settle_or_replay
  settle_or_replay-AddsReply call started (some r) k s t h =
      append_recovered_call-AddsReply call r started k s t h
  settle_or_replay-AddsReply call started none k s t h = replay_call-AddsReply call k s t h

  recover_calls-Replies :
      (cs : List (ExecutionToolCall V)) (k : Carried) (s t : BatchState V W) {k' : Carried}
      → recover_calls o intent cs k s ≡ (t, ok k')
      → (ms : List (Message V)) × Replies o.max_output_bytes (calls_of cs) ms
        × (t.session.messages ≡ s.session.messages ++ ms)
  unfolding recover_calls
  recover_calls-Replies [] k s t h = ([], tt, pure-session o k s t h ∙ sym (append-nil _))
  recover_calls-Replies (c ∷ cs) k s t h =
      let (u, k1, e, g) =
        >>=-eq-ok (settle_or_replay o intent c.call c.started c.outcome k) _ s h in
      let (m, reply, q) = settle_or_replay-AddsReply c.call c.started c.outcome k s u e in
      let (ms, replies, r) = recover_calls-Replies cs k1 u t g in
      (
        m ∷ ms,
        (reply, replies),
        r ∙ ap (λ l. l ++ ms) q ∙ append_assoc s.session.messages (m ∷ []) ms,
      )

module _ {V W : Type 0} (o : Options V W) where
  recover_checked-eq :
      (batch : ExecutionToolBatch V) (r : Option Text) (s t : BatchState V W)
      → refuse_or_recover o batch r s ≡ (t, recovered)
      → recover_checked o batch s ≡ (t, ok tt)
  unfolding refuse_or_recover journal_error
  recover_checked-eq batch (some reason) s t h = absurd (ground (arith, h))
  recover_checked-eq batch none s t h = go (recover_checked o batch s) h
    where
      go : (p : BatchState V W × Result Unit) → journal_error p ≡ (t, recovered) → p ≡ (t, ok tt)
      go (u, ok tt) h = ground (arith, h)
      go (u, err e) h = absurd (ground (arith, h))

  -- After a batch is recovered, on a settled history that ends in the request for its calls, whose
  -- ids are distinct, the whole history is settled.
  pub recover_tool_batch-IsSettled :
      (before : List (Message V)) (r x : Text) (batch : ExecutionToolBatch V) (s t : BatchState V W)
      → IsSettled before
      → Distinct (call_ids (calls_of batch.calls))
      → s.session.messages ≡ before ++ assistant r x (calls_of batch.calls) ∷ []
      → recover_tool_batch o batch s ≡ (t, recovered)
      → IsSettled t.session.messages
  unfolding recover_tool_batch recover_checked modify
  recover_tool_batch-IsSettled before r x batch s t settled d e h =
      let checked = recover_checked-eq batch _ s t h in
      let (s1, e1, h1) = >>-eq-ok (modify (λ u. record u { executed = [] })) _ s checked in
      let (s2, k, e2, h2) =
        >>=-eq-ok (recover_calls o batch.intent batch.calls none_carried) _ s1 h1 in
      let (ms, replies, q) =
        recover_calls-Replies o batch.intent batch.calls none_carried s1 s2 e2 in
      let start : s1.session.messages ≡ before ++ assistant r x (calls_of batch.calls) ∷ [] =
        ap (λ p. p.0.session.messages) (sym e1) ∙ e in
      finish_contexts-IsSettled o before r x (calls_of batch.calls) ms k s2 t settled d replies
        (q ∙ ap (λ l. l ++ ms) start ∙ append_assoc before _ ms) h2

  -- A call is uncertain where it started, the journal has no outcome of it, and it may not run again:
  -- its name is hidden, or no tool has the name, or the first tool that has it does not call it safe.
  -- Where there is an uncertain call, recovery asks for a reconciliation, with nothing changed, and the
  -- reason names the first one; where there is none the batch is recovered, unless the journal refuses
  -- an entry.
  pub recover_tool_batch-refused :
      (batch : ExecutionToolBatch V) (s : BatchState V W)
      → ((c : ExecutionToolCall V) × FirstUncertain o batch.calls c
          × (recover_tool_batch o batch s
              ≡ (s, failed (needs_reconciliation (unsettled_text c.call)))))
        ⊎ (All (IsReplayable o) batch.calls
            × ((t : BatchState V W) × ((recover_tool_batch o batch s ≡ (t, recovered))
                  ⊎ ((reason : Text) × (recover_tool_batch o batch s
                        ≡ (t, failed (journal reason)))))))
  unfolding recover_tool_batch validate_tool_batch_recovery refuse_or_recover journal_error
  recover_tool_batch-refused batch s = elim (validate_calls-cases o batch.calls) [
    | inl (c, first, h) ↦ inl (c, first, ap (λ r. refuse_or_recover o batch r s) h)
    | inr (safe, h) ↦
        inr (safe, ended (recover_checked o batch s) (ap (λ r. refuse_or_recover o batch r s) h))
  ]
    where
      ended :
          (p : BatchState V W × Result Unit) {q : BatchState V W × Recovery}
          → q ≡ journal_error p
          → (t : BatchState V W) × ((q ≡ (t, recovered))
              ⊎ ((reason : Text) × (q ≡ (t, failed (journal reason)))))
      ended (u, ok a) h = (u, inl h)
      ended (u, err e) h = (u, inr (e, h))
