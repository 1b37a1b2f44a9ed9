-- ===== src/Protocol/Outcome.antt =====
-- crates/mini-agent-protocol/src/tool.rs: the constructors of `ToolExecutionOutcome`.
use mini_agent_harness.Prelude.{Text, true, false, List, []}
use mini_agent_harness.Protocol.Model.{ContextInjectionRecord, ToolExecutionStatus}
use mini_agent_harness.Protocol.Tool.{ToolExecutionOutcome}

plain : ToolExecutionStatus → Text → ToolExecutionOutcome
plain s content = record {
  status = s;
  content = content;
  output_truncated = false;
  context_messages = [];
  context_injections = [];
}

unfoldable pub completed : Text → ToolExecutionOutcome
unfolding plain
completed = plain ToolExecutionStatus.completed

unfoldable pub failed : Text → ToolExecutionOutcome
unfolding plain
failed = plain ToolExecutionStatus.failed

unfoldable pub needs_approval : Text → ToolExecutionOutcome
unfolding plain
needs_approval = plain ToolExecutionStatus.needs_approval

unfoldable pub deferred : Text → ToolExecutionOutcome
unfolding plain
deferred = plain ToolExecutionStatus.deferred

unfoldable pub retryable : Text → ToolExecutionOutcome
unfolding plain
retryable = plain ToolExecutionStatus.retryable

unfoldable pub cancelled : Text → ToolExecutionOutcome
unfolding plain
cancelled = plain ToolExecutionStatus.cancelled

unfoldable pub with_context_injection :
    List Text → List ContextInjectionRecord → ToolExecutionOutcome → ToolExecutionOutcome
with_context_injection messages records o = record o {
  context_messages = messages;
  context_injections = records;
}

unfoldable pub with_truncated_output : ToolExecutionOutcome → ToolExecutionOutcome
with_truncated_output o = record o { output_truncated = true }
