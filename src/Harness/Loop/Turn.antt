-- ===== src/Harness/Loop/Turn.antt =====
-- crates/mini-agent-core/src/harness.rs: the loop of a run. Each round is one `iteration`; `continue`
-- is its end.
use mini_agent_harness.Prelude.{
  ℕ, zero, suc, Text, Bool, true, false, Option, none, some, List, [], ◌∷◌, ◌&&◌, codes, length,
  is_nil, leb, text_eq, saturating_add, if◌then◌else◌,
}
use mini_agent_harness.Protocol.{
  ModelResponse, ModelUsage, ModelContextSnapshot, LimitKind, StopReason, ToolCall, assistant,
  model_responded,
}
use mini_agent_harness.Execution.{
  ExecutionJournalEntry, ExecutionRunContext, tool_batch_started, tool_batch_settled,
}
use mini_agent_harness.Session.Bytes.{context_byte_breakdown_for}
use mini_agent_harness.Compaction.Waterline.{usage_reaches_context_waterline}
use mini_agent_harness.Batch.Monad
use mini_agent_harness.Batch.Monad.{BatchState}
use mini_agent_harness.Batch.Execute.{execute_tool_batch}
use mini_agent_harness.Harness.Config.{HarnessError}
use mini_agent_harness.Harness.History
use mini_agent_harness.Harness.History.{check_limit}
use mini_agent_harness.Harness.Compact.{model_response_bytes}
use mini_agent_harness.Harness.Loop.State.{
  Env, Loop, Flow, next, fail, Act, pure, modify, observe, push_message, on_run, journal_with,
  journal_checkpoint, finish, announce_injections, enter_batch, leave_batch, batch_options, ◌>>=◌,
  ◌>>◌,
}
use mini_agent_harness.Harness.Loop.Ask.{
  Answer, ask_model, is_compact, read_step, compact_context_with_reduction_target,
  max_context_window_compaction_retries,
}
use mini_agent_harness.Harness.Loop.Steer.{
  ControlAction, proceed, continue_turn, check, prepare_context, control_action, next_step,
}

abbrev pub loop_warning_text : Text
loop_warning_text =
    codes
      "[Loop warning: identical tool calls and outputs were repeated without progress. Please adjust arguments or try an alternate strategy.]"

-- `response.usage.is_some_and(|usage| model_context.as_ref().is_some_and(..))`
unfoldable pub reaches_waterline : Option ModelUsage → Option ModelContextSnapshot → Bool
reaches_waterline (some usage) (some context) = usage_reaches_context_waterline context usage
reaches_waterline none context = false
reaches_waterline (some usage) none = false

unfoldable pub turn_id_of : Option ExecutionRunContext → Option Text
turn_id_of none = none
turn_id_of (some x) = some x.turn_id

module _ {V W E : Type 0} where
  unfoldable pub check_response : Env V W E → ModelResponse V → Act V W E (Unit {0})
  check_response v response = do
    on_run (λ r.
        check
          (check_limit LimitKind.model_response_bytes r.harness.config.max_model_response_bytes
            (model_response_bytes v.json response))
          r)
    on_run (λ r.
        check
          (check_limit LimitKind.tool_calls_per_step r.harness.config.max_tool_calls_per_step
            (length response.tool_calls))
          r)

  unfoldable pub report_response : Env V W E → Answer V → Act V W E (Unit {0})
  report_response v a s =
      let h = s.run.harness in
      let r = a.response in
      observe
        (model_responded r.reasoning r.text r.tool_calls r.usage (some a.timing)
          (some
            (context_byte_breakdown_for v.json h.config.system_prompt h.session.messages v.specs))
          a.context)
        s

  unfoldable pub compact_if : Env V W E → Bool → Act V W E (Unit {0})
  compact_if v false = pure tt
  compact_if v true = on_run (compact_context_with_reduction_target v) >>= λ _. pure tt

  -- `compact_after_response`
  unfoldable pub must_compact : Answer V → Act V W E Bool
  must_compact a s =
      pure
        (is_compact s.run.harness.config.context_limit_behavior
          && reaches_waterline a.response.usage a.context)
        s

  -- a response without tool calls
  unfoldable pub complete : Env V W E → ControlAction → Act V W E (Unit {0})
  complete v continue_turn = pure tt
  complete v proceed = do step ← read_step; finish step StopReason.completed

  -- `tools` and `session` are the batch's while it runs
  unfoldable pub settle_batch :
      Env V W E
      → Loop V W E
      → BatchState V W × Monad.Result Unit
      → Loop V W E × Flow V E (List (Text × V × Text))
  settle_batch v s (b, Monad.ok _) = (leave_batch v s b, next b.executed)
  settle_batch v s (b, Monad.err e) = (leave_batch v s b, fail (HarnessError.execution_journal e))

  unfoldable pub run_batch : Env V W E → List (ToolCall V) → Act V W E (List (Text × V × Text))
  run_batch v calls s =
      settle_batch v s
        (execute_tool_batch (batch_options v (turn_id_of s.execution) s) calls (enter_batch s))

  unfoldable pub same_results : Env V W E → List (Text × V × Text) → List (Text × V × Text) → Bool
  same_results v [] [] = true
  same_results v [] (y ∷ ys) = false
  same_results v (x ∷ xs) [] = false
  same_results v ((name, arguments, content) ∷ xs) ((name', arguments', content') ∷ ys) =
      (text_eq name name' && (v.same_value arguments arguments' && text_eq content content'))
      && same_results v xs ys

  unfoldable pub is_repeated :
      Env V W E → List (Text × V × Text) → Option (List (Text × V × Text)) → Bool
  is_repeated v executed none = false
  is_repeated v executed (some last) = same_results v last executed

  unfoldable pub count_duplicates : Env V W E → List (Text × V × Text) → Act V W E (Unit {0})
  count_duplicates v executed = modify (λ s.
      if is_repeated v executed s.last_tool_batch
      then record s { duplicates = saturating_add s.duplicates 1 }
      else record s { duplicates = 0; last_tool_batch = some executed })

  -- `let _ = self.append_context(LOOP_WARNING_TEXT)` from the third equal batch on
  unfoldable pub warn_of_loop : Act V W E (Unit {0})
  warn_of_loop = modify (λ s.
      if leb 2 s.duplicates
      then record s {
        run = record s.run { harness = (History.append_context loop_warning_text s.run.harness).0 };
      }
      else s)

  unfoldable pub batch_started :
      ModelResponse V → ExecutionRunContext → Loop V W E → ExecutionJournalEntry V
  batch_started response execution s = tool_batch_started (record {
    turn_id = execution.turn_id;
    step = s.step;
    reasoning = response.reasoning;
    text = response.text;
    calls = response.tool_calls;
  })

  unfoldable pub batch_settled : ExecutionRunContext → Loop V W E → ExecutionJournalEntry V
  batch_settled execution s = tool_batch_settled execution.turn_id s.step

  -- the end of a round with tool calls
  unfoldable pub finish_round : Env V W E → ControlAction → Act V W E (Unit {0})
  finish_round v continue_turn = pure tt
  finish_round v proceed = prepare_context v

  -- the journal's entries after a batch
  unfoldable pub journal_settled : Env V W E → Act V W E (Unit {0})
  journal_settled v = do
    journal_with v batch_settled
    step ← read_step
    journal_checkpoint v (saturating_add step 1)

  unfoldable pub run_tools : Env V W E → ModelResponse V → Act V W E (Unit {0})
  run_tools v response = do
    journal_with v (batch_started response)
    executed ← run_batch v response.tool_calls
    journal_settled v
    count_duplicates v executed
    warn_of_loop
    action ← control_action v
    finish_round v action

  -- after the response is in the history
  unfoldable pub act_on : Env V W E → ModelResponse V → Act V W E (Unit {0})
  act_on v response =
      if is_nil response.tool_calls
      then (do action ← control_action v; complete v action)
      else run_tools v response

  unfoldable pub use_answer : Env V W E → Answer V → Act V W E (Unit {0})
  use_answer v a = do
    check_response v a.response
    compacting ← must_compact a
    report_response v a
    modify (λ s. record s { final_text = a.response.text })
    push_message (assistant a.response.reasoning a.response.text a.response.tool_calls)
    compact_if v compacting
    act_on v a.response

  -- a round after the check of its step
  unfoldable pub ask_and_act : Env V W E → Act V W E (Unit {0})
  ask_and_act v = do
    announce_injections
    prepare_context v
    step ← read_step
    journal_checkpoint v step
    answer ← ask_model v max_context_window_compaction_retries
    use_answer v answer

  -- a round after the look at the run control
  unfoldable pub model_step : Env V W E → Act V W E (Unit {0})
  model_step v = next_step >> ask_and_act v

  unfoldable pub step_unless_continued : Env V W E → ControlAction → Act V W E (Unit {0})
  step_unless_continued v continue_turn = pure tt
  step_unless_continued v proceed = model_step v

  unfoldable pub iteration : Env V W E → Act V W E (Unit {0})
  iteration v = do action ← control_action v; step_unless_continued v action

  -- The loop, for that many rounds: it goes on at the end where they do not suffice.
  unfoldable pub run_loop : Env V W E → ℕ → Act V W E (Unit {0})
  run_loop v zero = pure tt
  run_loop v (suc fuel) = iteration v >> run_loop v fuel
