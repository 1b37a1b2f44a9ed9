-- ===== src/Batch/Succeeds.antt =====
-- crates/mini-agent-core/src/tool_batch_executor.rs: batches whose journal takes every entry.
use mini_agent_harness.Prelude.{
  ◌+◌, ◌≡◌, refl, ap, ◌∙◌, Text, Bool, true, false, Option, none, some, List, [], ◌∷◌,
  if◌then◌else◌,
}
use mini_agent_harness.Protocol.{
  ToolCall, ToolExecutionOutcome, ContextInjectionRecord, Event, tool_started,
}
use mini_agent_harness.Protocol.Outcome
use mini_agent_harness.Execution.{ExecutionJournalEntry, written, append_if_present}
use mini_agent_harness.Batch.Monad.{
  Options, BatchState, Exec, ok, pure, modify, observe, push_message, read_cancel, append_journal,
  after, settle, ◌>>=◌, ◌>>◌,
}
use mini_agent_harness.Batch.Record.{
  push_executed, journal_finished, publish_result, record_tool_result,
}
use mini_agent_harness.Batch.Execute.{
  Carried, none_carried, carry, not_run_text, replan_text, journal_started, run_tool,
  decide_outcome, start_call, skip_call, run_call, run_calls, announce, finish_contexts,
  execute_tool_batch,
}

module _ {V W : Type 0} where
  -- the action ends without an error, from every state
  abbrev pub Succeeds : {A : Type 0} → Exec V W A → Type 0
  Succeeds {A} m = (s : BatchState V W) → (t : BatchState V W) × ((a : A) × (m s ≡ (t, ok a)))

  pub >>=-Succeeds :
      {A B : Type 0} (m : Exec V W A) (f : A → Exec V W B)
      → Succeeds m
      → ((a : A) → Succeeds (f a))
      → Succeeds (m >>= f)
  unfolding ◌>>=◌
  >>=-Succeeds m f hm hf s =
      let (u, (a, e)) = hm s in let (t, (b, g)) = hf a u in (t, (b, ap (λ r. after r f) e ∙ g))

  pub >>-Succeeds :
      {B : Type 0} (m : Exec V W (Unit {0})) (k : Exec V W B)
      → Succeeds m
      → Succeeds k
      → Succeeds (m >> k)
  unfolding ◌>>◌
  >>-Succeeds m k hm hk = >>=-Succeeds m (λ _. k) hm (λ _. hk)

  pub pure-Succeeds : {A : Type 0} (a : A) → Succeeds (pure a)
  unfolding pure
  pure-Succeeds a s = (s, (a, refl))

  pub observe-Succeeds : (e : Event V) → Succeeds (observe e)
  unfolding observe modify
  observe-Succeeds e s = (_, (tt, refl))

  -- The journal takes every entry, as it does where there is no sink.
  abbrev pub IsWritable : Options V W → Type 0
  IsWritable o =
      (entry : ExecutionJournalEntry V) (log : List (ExecutionJournalEntry V))
      → (log' : List (ExecutionJournalEntry V)) × (append_if_present o.sink entry log
          ≡ written log')

  module _ (o : Options V W) (writable : IsWritable o) where
    pub append_journal-Succeeds :
        (entry : ExecutionJournalEntry V) → Succeeds (append_journal o entry)
    unfolding append_journal
    append_journal-Succeeds entry s =
        let (log, e) = writable entry s.journal in
        (record s { journal = log }, (tt, ap (λ r. settle r s) e))

    journal_finished-Succeeds :
        (call : ToolCall V) (outcome : ToolExecutionOutcome) (turn : Option Text)
        → Succeeds (journal_finished o call outcome turn)
    unfolding journal_finished pure
    journal_finished-Succeeds call outcome none s = (s, (tt, refl))
    journal_finished-Succeeds call outcome (some id) s = append_journal-Succeeds _ s

    journal_started-Succeeds :
        (call : ToolCall V) (turn : Option Text) → Succeeds (journal_started o call turn)
    unfolding journal_started pure
    journal_started-Succeeds call none s = (s, (tt, refl))
    journal_started-Succeeds call (some id) s = append_journal-Succeeds _ s

    pub publish_result-Succeeds :
        (call : ToolCall V) (outcome : ToolExecutionOutcome)
        → Succeeds (publish_result o call outcome)
    unfolding publish_result observe push_message push_executed modify ◌>>◌ ◌>>=◌ after
    publish_result-Succeeds call outcome s = (_, (tt, refl))

    record_tool_result-Succeeds :
        (call : ToolCall V) (outcome : ToolExecutionOutcome)
        → Succeeds (record_tool_result o call outcome)
    unfolding record_tool_result
    record_tool_result-Succeeds call outcome =
        >>-Succeeds (journal_finished o call outcome o.turn_id) (publish_result o call outcome)
          (journal_finished-Succeeds call outcome o.turn_id) (publish_result-Succeeds call outcome)

    decide_outcome-Succeeds :
        (call : ToolCall V) (replan : Bool) → Succeeds (decide_outcome o call replan)
    unfolding decide_outcome read_cancel ◌>>=◌ after pure run_tool
    decide_outcome-Succeeds call replan s = by_cases (o.cancel_at s.reads) replan
      where
        by_cases :
            (cancelled replan : Bool)
            → (t : BatchState V W) × ((a : ToolExecutionOutcome) × ((if cancelled
                      then pure (Outcome.cancelled not_run_text)
                      else if replan
                      then pure (Outcome.deferred replan_text)
                      else run_tool o call)
                    (record s { reads = s.reads + 1 })
                  ≡ (t, ok a)))
        by_cases true replan = (_, (_, refl))
        by_cases false true = (_, (_, refl))
        by_cases false false = (_, (_, refl))

    skip_call-Succeeds : (call : ToolCall V) (k : Carried) → Succeeds (skip_call o call k)
    unfolding skip_call
    skip_call-Succeeds call k =
        >>-Succeeds _ (pure k) (record_tool_result-Succeeds call _) (pure-Succeeds k)

    start_call-Succeeds : (call : ToolCall V) (k : Carried) → Succeeds (start_call o call k)
    unfolding start_call
    start_call-Succeeds call k =
        >>-Succeeds (journal_started o call o.turn_id) _ (journal_started-Succeeds call o.turn_id) (
          >>-Succeeds (observe (tool_started call)) _ (observe-Succeeds _) (
            >>=-Succeeds (decide_outcome o call k.replan_after_injection) _
              (decide_outcome-Succeeds call _)
              λ outcome.
                >>-Succeeds (record_tool_result o call outcome) (pure (carry k outcome))
                  (record_tool_result-Succeeds call outcome) (pure-Succeeds (carry k outcome))))

    run_call-Succeeds : (call : ToolCall V) (k : Carried) → Succeeds (run_call o call k)
    unfolding run_call
    run_call-Succeeds call k = >>=-Succeeds (read_cancel o) _ read_cancel-Succeeds by_flag
      where
        read_cancel-Succeeds : Succeeds (read_cancel o)
        read_cancel-Succeeds s = unfold read_cancel in (_, (_, refl))

        by_flag :
            (cancelled : Bool)
            → Succeeds (if cancelled then skip_call o call k else start_call o call k)
        by_flag true = skip_call-Succeeds call k
        by_flag false = start_call-Succeeds call k

    run_calls-Succeeds : (calls : List (ToolCall V)) (k : Carried) → Succeeds (run_calls o calls k)
    unfolding run_calls
    run_calls-Succeeds [] k = pure-Succeeds k
    run_calls-Succeeds (call ∷ calls) k =
        >>=-Succeeds (run_call o call k) _ (run_call-Succeeds call k) (run_calls-Succeeds calls)

    -- the result of the batch before is forgotten
    pub cleared-Succeeds : Succeeds (modify (λ (s : BatchState V W). record s { executed = [] }))
    unfolding modify
    cleared-Succeeds s = (_, (tt, refl))

    announce-Succeeds : (added : List ContextInjectionRecord) → Succeeds (announce added)
    unfolding announce
    announce-Succeeds [] = pure-Succeeds tt
    announce-Succeeds (r ∷ rs) = observe-Succeeds _

    pub finish_contexts-Succeeds : (k : Carried) → Succeeds (finish_contexts o k)
    unfolding finish_contexts
    finish_contexts-Succeeds k s = announce-Succeeds _ _

    -- A batch whose journal takes every entry always ends without an error, whatever the tools
    -- answer and whenever it is cancelled.
    pub execute_tool_batch_succeeds :
        (calls : List (ToolCall V)) (s : BatchState V W)
        → (t : BatchState V W) × (execute_tool_batch o calls s ≡ (t, ok tt))
    unfolding execute_tool_batch
    execute_tool_batch_succeeds calls s = let (t, (a, e)) = whole s in (t, e)
      where
        whole : Succeeds (execute_tool_batch o calls)
        whole = >>-Succeeds _ _ cleared-Succeeds (
            >>=-Succeeds (run_calls o calls none_carried) (finish_contexts o)
              (run_calls-Succeeds calls none_carried) finish_contexts-Succeeds)
