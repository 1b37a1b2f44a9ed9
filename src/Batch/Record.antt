-- ===== src/Batch/Record.antt =====
-- crates/mini-agent-core/src/tool_batch_executor.rs, `record_tool_result`.
use mini_agent_harness.Prelude.{Text, Option, none, some, [], ◌∷◌, ◌++◌, ◌||◌, length, ltb}
use mini_agent_harness.Protocol.{ToolCall, ToolExecutionOutcome, is_error, tool, tool_finished}
use mini_agent_harness.Execution.{tool_call_finished}
use mini_agent_harness.Tools.Truncate.{truncate_utf8}
use mini_agent_harness.Batch.Monad.{
  Options, Exec, pure, modify, observe, push_message, append_journal, ◌>>◌,
}

module _ {V W : Type 0} where
  -- `executed.push(..)`
  unfoldable pub push_executed : Text × V × Text → Exec V W (Unit {0})
  unfolding modify
  push_executed x = modify (λ s. record s { executed = s.executed ++ x ∷ [] })

  -- with a Turn id, the entry is journaled first
  unfoldable pub journal_finished :
      Options V W → ToolCall V → ToolExecutionOutcome → Option Text → Exec V W (Unit {0})
  journal_finished o call outcome none = pure tt
  journal_finished o call outcome (some turn_id) =
      append_journal o (tool_call_finished turn_id o.step call.id outcome)

  -- the finished event, the session's message and the executed entry
  unfoldable pub publish_result :
      Options V W → ToolCall V → ToolExecutionOutcome → Exec V W (Unit {0})
  unfolding push_executed
  publish_result o call outcome = do
    let truncated = outcome.output_truncated || ltb o.max_output_bytes (length outcome.content)
    let content = truncate_utf8 outcome.content o.max_output_bytes
    observe (
        tool_finished call.id call.name call.arguments content (is_error outcome.status) truncated
          (some outcome.status))
    push_message (tool call.id call.name content (is_error outcome.status) (some outcome.status))
    push_executed (call.name, call.arguments, content)

  unfoldable pub record_tool_result :
      Options V W → ToolCall V → ToolExecutionOutcome → Exec V W (Unit {0})
  record_tool_result o call outcome = do
    journal_finished o call outcome o.turn_id
    publish_result o call outcome
