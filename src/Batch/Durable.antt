-- ===== src/Batch/Durable.antt =====
-- crates/mini-agent-core/src/tool_batch_executor.rs: recovery from a journal that has every outcome.
use mini_agent_harness.Prelude.{
  ℕ, ◌≡◌, refl, sym, ap, ◌∙◌, Text, Bool, true, false, Option, none, some, List, [], ◌∷◌, ◌++◌,
  is_some, append-nil, append_assoc, arith, All,
}
use mini_agent_harness.Protocol.{ToolCall, ToolExecutionOutcome}
use mini_agent_harness.Execution.{ToolBatchIntent, ExecutionToolCall, ExecutionToolBatch}
use mini_agent_harness.Tools.Router.{ToolRouter}
use mini_agent_harness.Tools.Truncate.{truncate_utf8}
use mini_agent_harness.Batch.Monad.{
  Options, BatchState, ok, pure, modify, append_journal, observe, push_message, after, ◌>>=◌, ◌>>◌,
}
use mini_agent_harness.Batch.Record.{push_executed, publish_result}
use mini_agent_harness.Batch.Execute.{Carried, none_carried, carry, announce, finish_contexts}
use mini_agent_harness.Batch.Inversion.{>>-eq-ok, append_journal_ok}
use mini_agent_harness.Batch.Succeeds.{
  Succeeds, IsWritable, >>-Succeeds, pure-Succeeds, observe-Succeeds, append_journal-Succeeds,
  publish_result-Succeeds, finish_contexts-Succeeds,
}
use mini_agent_harness.Batch.Recover.{
  recovered, is_unsettled, validate_calls, validate_tool_batch_recovery, announce_start,
  append_recovered_call, settle_or_replay, recover_calls, recover_checked, journal_error,
  refuse_or_recover, recover_tool_batch,
}

-- the journal has the call's outcome
abbrev pub IsDurable : {V : Type 0} → ExecutionToolCall V → Type 0
IsDurable c = is_some c.outcome ≡ true

-- what the batch's result has of a call with an outcome
abbrev pub result_of :
    {V : Type 0} → ℕ → ToolCall V → Option ToolExecutionOutcome → List (Text × V × Text)
result_of n call none = []
result_of n call (some r) = (call.name, call.arguments, truncate_utf8 r.content n) ∷ []

abbrev pub results : {V : Type 0} → ℕ → List (ExecutionToolCall V) → List (Text × V × Text)
results n [] = []
results n (c ∷ cs) = result_of n c.call c.outcome ++ results n cs

module _ {V W : Type 0} (o : Options V W) (intent : ToolBatchIntent V) where
  append_recovered_call-Succeeds :
      IsWritable o
      → (call : ToolCall V) (r : ToolExecutionOutcome) (started : Bool) (k : Carried)
      → Succeeds (append_recovered_call o intent call r started k)
  unfolding append_recovered_call
  append_recovered_call-Succeeds writable call r started k =
      >>-Succeeds (announce_start started call) _ (announced started) (
        >>-Succeeds (append_journal o _) _ (append_journal-Succeeds o writable _) (
          >>-Succeeds (publish_result o call r) _ (publish_result-Succeeds o writable call r)
            (pure-Succeeds (carry k r))))
    where
      announced : (started : Bool) → Succeeds {V = V} {W = W} (announce_start started call)
      announced true = unfold announce_start in observe-Succeeds _
      announced false = unfold announce_start in pure-Succeeds tt

  -- the world is as before, and the batch's result has gained the entries
  abbrev Gains : List (Text × V × Text) → BatchState V W → BatchState V W → Type 0
  Gains xs s t = (t.world ≡ s.world) × (t.executed ≡ s.executed ++ xs)

  announce_start-Gains :
      (started : Bool) (call : ToolCall V) (s t : BatchState V W)
      → announce_start started call s ≡ (t, ok tt)
      → (t.world ≡ s.world) × (t.executed ≡ s.executed)
  unfolding announce_start pure observe
  announce_start-Gains true call s t h =
      (ap (λ p. p.0.world) (sym h), ap (λ p. p.0.executed) (sym h))
  announce_start-Gains false call s t h =
      (ap (λ p. p.0.world) (sym h), ap (λ p. p.0.executed) (sym h))

  append_recovered_call-Gains :
      (call : ToolCall V) (r : ToolExecutionOutcome) (started : Bool) (k : Carried)
      (s t : BatchState V W) {k' : Carried}
      → append_recovered_call o intent call r started k s ≡ (t, ok k')
      → Gains (result_of o.max_output_bytes call (some r)) s t
  unfolding append_recovered_call publish_result observe push_message push_executed pure ◌>>◌
  append_recovered_call-Gains call r started k s t h =
      let (s1, e1, h1) = >>-eq-ok (announce_start started call) _ s h in
      let (s2, e2, h2) = >>-eq-ok (append_journal o _) _ s1 h1 in
      let (world, executed) = announce_start-Gains started call s s1 e1 in
      let journaled = (append_journal_ok o _ s1 e2).1 in
      let entry = result_of o.max_output_bytes call (some r) in
      (
        ap (λ p. p.0.world) (sym h2) ∙ ap (λ (u : BatchState V W). u.world) journaled ∙ world,
        ap (λ p. p.0.executed) (sym h2)
            ∙ ap (λ (u : BatchState V W). u.executed ++ entry) journaled
            ∙ ap (λ l. l ++ entry) executed,
      )

  -- a call with an outcome
  settle-durable :
      IsWritable o
      → (call : ToolCall V) (started : Bool) (r : Option ToolExecutionOutcome) (k : Carried)
        (s : BatchState V W)
      → is_some r ≡ true
      → (t : BatchState V W) × (k' : Carried) × (settle_or_replay o intent call started r k s
          ≡ (t, ok k'))
        × Gains (result_of o.max_output_bytes call r) s t
  unfolding settle_or_replay
  settle-durable writable call started (some r) k s d =
      let (t, (k', e)) = append_recovered_call-Succeeds writable call r started k s in
      (t, k', e, append_recovered_call-Gains call r started k s t e)
  settle-durable writable call started none k s d = absurd (ground (arith, d))

  recover_calls-durable :
      IsWritable o
      → (cs : List (ExecutionToolCall V)) (k : Carried) (s : BatchState V W) → All IsDurable cs
      → (t : BatchState V W) × (k' : Carried) × (recover_calls o intent cs k s ≡ (t, ok k'))
        × Gains (results o.max_output_bytes cs) s t
  unfolding recover_calls pure ◌>>=◌ after
  recover_calls-durable writable [] k s d = (s, k, refl, (refl, sym (append-nil s.executed)))
  recover_calls-durable writable (c ∷ cs) k s d =
      let (u, k1, e, (world, executed)) =
        settle-durable writable c.call c.started c.outcome k s d.0 in
      let (t, k2, g, (world', executed')) = recover_calls-durable writable cs k1 u d.1 in
      (
        t,
        k2,
        ap (λ p. after p (λ k'. recover_calls o intent cs k')) e ∙ g,
        (
          world' ∙ world,
          executed'
              ∙ ap (λ l. l ++ results o.max_output_bytes cs) executed
              ∙ append_assoc s.executed _ _,
        ),
      )

validate_calls-durable :
    {V W : Type 0} (tools : ToolRouter V W) (cs : List (ExecutionToolCall V))
    → All IsDurable cs
    → validate_calls tools cs ≡ none
unfolding validate_calls is_unsettled
validate_calls-durable tools [] d = refl
validate_calls-durable tools (c ∷ cs) d =
    let rest = validate_calls-durable tools cs d.1 in ground (arith, d, rest)

finish_contexts-kept :
    {V W : Type 0} (o : Options V W) (k : Carried) (s : BatchState V W)
    → ((finish_contexts o k s).0.world ≡ s.world)
      × ((finish_contexts o k s).0.executed ≡ s.executed)
unfolding finish_contexts announce observe pure
finish_contexts-kept o k s = (ground arith, ground arith)

module _ {V W : Type 0} (o : Options V W) where
  -- Where the journal takes every entry and has the outcome of every call of the batch, recovery
  -- succeeds without running a tool: the world is as before, and the batch's result has each call's
  -- name and arguments with its journaled content, cut to the limit.
  pub recover_tool_batch-durable :
      (batch : ExecutionToolBatch V) (s : BatchState V W)
      → IsWritable o
      → All IsDurable batch.calls
      → (t : BatchState V W) × (recover_tool_batch o batch s ≡ (t, recovered))
        × (t.world ≡ s.world)
        × (t.executed ≡ results o.max_output_bytes batch.calls)
  unfolding recover_tool_batch validate_tool_batch_recovery refuse_or_recover recover_checked
      journal_error modify ◌>>◌ ◌>>=◌ after
  recover_tool_batch-durable batch s writable d =
      let cleared = record s { executed = [] } in
      let (u, k, e, (world, executed)) =
        recover_calls-durable o batch.intent writable batch.calls none_carried cleared d in
      let (t, (a, f)) = finish_contexts-Succeeds o writable k u in
      let (world', executed') = finish_contexts-kept o k u in
      (
        t,
        ap (λ r. refuse_or_recover o batch r s) (validate_calls-durable o.tools batch.calls d)
            ∙ ap (λ p. journal_error (after p (finish_contexts o))) e
            ∙ ap journal_error f,
        ap (λ p. p.0.world) (sym f) ∙ world' ∙ world,
        ap (λ p. p.0.executed) (sym f) ∙ executed' ∙ executed,
      )
