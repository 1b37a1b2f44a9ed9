-- ===== src/Batch/Recover.antt =====
-- crates/mini-agent-core/src/tool_batch_executor.rs, `recover_tool_batch`: a batch that an earlier
-- process began, from its journal's outcomes and from calls that may be made again.
use mini_agent_harness.Prelude.{
  Text, Bool, true, false, Option, none, some, is_some, List, [], ◌∷◌, ◌++◌, ◌&&◌, codes, not,
  if◌then◌else◌,
}
use mini_agent_harness.Protocol.{
  ToolCall, ToolExecutionRequest, ToolExecutionOutcome, is_safe, tool_started,
}
use mini_agent_harness.Execution.{
  ToolBatchIntent, ExecutionToolCall, ExecutionToolBatch, tool_call_started, tool_call_finished,
}
use mini_agent_harness.Tools.Router.{ToolRouter, recovery_replay_safety}
use mini_agent_harness.Batch.Monad.{
  Options, BatchState, Result, ok, err, Exec, pure, modify, observe, append_journal, ◌>>=◌, ◌>>◌,
}
use mini_agent_harness.Batch.Record.{publish_result}
use mini_agent_harness.Batch.Execute.{Carried, none_carried, carry, run_tool, finish_contexts}

pub data ToolBatchRecoveryError : Type 0 where
  needs_reconciliation journal : Text → ToolBatchRecoveryError

pub data Recovery : Type 0 where
  recovered : Recovery
  failed : ToolBatchRecoveryError → Recovery

-- `ToolExecutionRequest::from(call.clone())`
unfoldable pub plain_request : {V : Type 0} → ToolCall V → ToolExecutionRequest V
plain_request call = record {
  call_id = call.id;
  name = call.name;
  arguments = call.arguments;
  context = none;
  known_context_injections = [];
  cancellation = none;
}

unfoldable pub unsettled_text : {V : Type 0} → ToolCall V → Text
unsettled_text call =
    codes "tool call "
    ++ (call.id ++ (codes " (" ++ (call.name ++ codes ") started without a durable result")))

module _ {V W : Type 0} where
  -- a call that started, of which the journal does not know the end, and that may not run again
  unfoldable pub is_unsettled : ToolRouter V W → ExecutionToolCall V → Bool
  is_unsettled tools c =
      (c.started && not (is_some c.outcome))
      && not (is_safe (recovery_replay_safety tools (plain_request c.call)))

  unfoldable pub validate_calls : ToolRouter V W → List (ExecutionToolCall V) → Option Text
  validate_calls tools [] = none
  validate_calls tools (c ∷ cs) =
      if is_unsettled tools c then some (unsettled_text c.call) else validate_calls tools cs

  unfoldable pub validate_tool_batch_recovery : ToolRouter V W → ExecutionToolBatch V → Option Text
  validate_tool_batch_recovery tools batch = validate_calls tools batch.calls

  unfoldable pub announce_start : Bool → ToolCall V → Exec V W (Unit {0})
  announce_start true call = observe (tool_started call)
  announce_start false call = pure tt

  unfoldable pub append_recovered_call :
      Options V W
      → ToolBatchIntent V
      → ToolCall V
      → ToolExecutionOutcome
      → Bool
      → Carried
      → Exec V W Carried
  append_recovered_call o intent call outcome started k = do
    announce_start started call
    append_journal o (tool_call_finished intent.turn_id intent.step call.id outcome)
    publish_result o call outcome
    pure (carry k outcome)

  unfoldable pub replay_call :
      Options V W → ToolBatchIntent V → ToolCall V → Carried → Exec V W Carried
  replay_call o intent call k = do
    append_journal o (tool_call_started intent.turn_id intent.step call.id)
    outcome ← run_tool o call
    append_recovered_call o intent call outcome true k

  -- the body of the loop: a durable outcome is used, and a call without one is made
  unfoldable pub settle_or_replay :
      Options V W
      → ToolBatchIntent V
      → ToolCall V
      → Bool
      → Option ToolExecutionOutcome
      → Carried
      → Exec V W Carried
  settle_or_replay o intent call started (some outcome) k =
      append_recovered_call o intent call outcome started k
  settle_or_replay o intent call started none k = replay_call o intent call k

  unfoldable pub recover_calls :
      Options V W → ToolBatchIntent V → List (ExecutionToolCall V) → Carried → Exec V W Carried
  recover_calls o intent [] k = pure k
  recover_calls o intent (c ∷ cs) k = do
    k' ← settle_or_replay o intent c.call c.started c.outcome k
    recover_calls o intent cs k'

  -- the function after its check
  unfoldable pub recover_checked : Options V W → ExecutionToolBatch V → Exec V W (Unit {0})
  recover_checked o batch = do
    modify (λ s. record s { executed = [] })
    k ← recover_calls o batch.intent batch.calls none_carried
    finish_contexts o k

  -- `map_err(ToolBatchRecoveryError::Journal)`
  unfoldable pub journal_error : BatchState V W × Result Unit → BatchState V W × Recovery
  journal_error (s, ok _) = (s, recovered)
  journal_error (s, err e) = (s, failed (journal e))

  unfoldable pub refuse_or_recover :
      Options V W → ExecutionToolBatch V → Option Text → BatchState V W → BatchState V W × Recovery
  refuse_or_recover o batch (some reason) s = (s, failed (needs_reconciliation reason))
  refuse_or_recover o batch none s = journal_error (recover_checked o batch s)

  unfoldable pub recover_tool_batch :
      Options V W → ExecutionToolBatch V → BatchState V W → BatchState V W × Recovery
  recover_tool_batch o batch s =
      refuse_or_recover o batch (validate_tool_batch_recovery o.tools batch) s
