-- ===== src/Batch/Execute.antt =====
-- crates/mini-agent-core/src/tool_batch_executor.rs, `execute_tool_batch`.
use mini_agent_harness.Prelude.{
  Text, Bool, false, Option, none, some, List, [], ◌∷◌, ◌++◌, ◌||◌, codes, not, is_nil,
  if◌then◌else◌,
}
use mini_agent_harness.Protocol.{
  ContextInjectionRecord, ToolCall, ToolExecutionRequest, ToolExecutionOutcome, context,
  context_injected, tool_started,
}
use mini_agent_harness.Protocol.Outcome
use mini_agent_harness.Execution.{tool_call_started}
use mini_agent_harness.Session.State
use mini_agent_harness.Session.State.{SessionState, append_context_injection}
use mini_agent_harness.Tools.Router.{execute_outcome}
use mini_agent_harness.Batch.Monad.{
  Options, BatchState, Exec, ok, pure, modify, observe, read_cancel, append_journal, ◌>>=◌, ◌>>◌,
}
use mini_agent_harness.Batch.Record.{record_tool_result}

-- the variables that the loop carries from call to call
pub record Carried : Type 0 where
  pub context_messages : List Text
  pub context_injections : List ContextInjectionRecord
  pub replan_after_injection : Bool

unfoldable pub none_carried : Carried
none_carried = record {
  context_messages = [];
  context_injections = [];
  replan_after_injection = false;
}

unfoldable pub carry : Carried → ToolExecutionOutcome → Carried
carry k outcome = record {
  context_messages = k.context_messages ++ outcome.context_messages;
  context_injections = k.context_injections ++ outcome.context_injections;
  replan_after_injection = k.replan_after_injection || not (is_nil outcome.context_messages);
}

abbrev pub not_started_text : Text
not_started_text = codes "Turn cancelled before this tool call started; the call was not executed."

abbrev pub not_run_text : Text
not_run_text = codes "Turn cancelled before this tool call executed; the call was not run."

abbrev pub replan_text : Text
replan_text =
    codes "Host added workspace instructions. Review them, then retry the remaining operation."

unfoldable pub append_one :
    {V : Type 0}
    → Text
    → ContextInjectionRecord
    → List ContextInjectionRecord
    → SessionState V × Option ContextInjectionRecord
    → SessionState V × List ContextInjectionRecord
append_one text r added (s, none) = (s, added)
append_one text r added (s, some r') = (s, added ++ r' ∷ [])

module _ {V W : Type 0} where
  unfoldable pub journal_started : Options V W → ToolCall V → Option Text → Exec V W (Unit {0})
  journal_started o call none = pure tt
  journal_started o call (some turn_id) =
      append_journal o (tool_call_started turn_id o.step call.id)

  unfoldable pub request_of : Options V W → ToolCall V → BatchState V W → ToolExecutionRequest V
  request_of o call s = record {
    call_id = call.id;
    name = call.name;
    arguments = call.arguments;
    context = o.context;
    known_context_injections = State.context_injections o.json s.session;
    cancellation = some (o.cancel_at s.reads);
  }

  -- `tools.execute_outcome(&request)`
  unfoldable pub run_tool : Options V W → ToolCall V → Exec V W ToolExecutionOutcome
  run_tool o call s =
      let (w, outcome) = execute_outcome o.tools (request_of o call s) s.world in
      (record s { world = w }, ok outcome)

  -- the second look at the cancel flag, then the replan rule, then the tool
  unfoldable pub decide_outcome : Options V W → ToolCall V → Bool → Exec V W ToolExecutionOutcome
  decide_outcome o call replan = do
    cancelled ← read_cancel o
    (if cancelled
        then pure (Outcome.cancelled not_run_text)
        else if replan
        then pure (Outcome.deferred replan_text)
        else run_tool o call)

  -- a call that the first look at the cancel flag lets through
  unfoldable pub start_call : Options V W → ToolCall V → Carried → Exec V W Carried
  start_call o call k = do
    journal_started o call o.turn_id
    observe (tool_started call)
    outcome ← decide_outcome o call k.replan_after_injection
    record_tool_result o call outcome
    pure (carry k outcome)

  unfoldable pub skip_call : Options V W → ToolCall V → Carried → Exec V W Carried
  skip_call o call k = do record_tool_result o call (Outcome.cancelled not_started_text); pure k

  unfoldable pub run_call : Options V W → ToolCall V → Carried → Exec V W Carried
  run_call o call k = do
    cancelled ← read_cancel o
    (if cancelled then skip_call o call k else start_call o call k)

  unfoldable pub run_calls : Options V W → List (ToolCall V) → Carried → Exec V W Carried
  run_calls o [] k = pure k
  run_calls o (call ∷ calls) k = do k' ← run_call o call k; run_calls o calls k'

  -- the messages after the results, each with the injection record at its index if there is one
  unfoldable pub append_contexts :
      Options V W
      → List Text
      → List ContextInjectionRecord
      → List ContextInjectionRecord
      → SessionState V
      → SessionState V × List ContextInjectionRecord
  unfolding append_one
  append_contexts o [] rs added s = (s, added)
  append_contexts o (t ∷ ts) [] added s = append_contexts o ts [] added (State.push (context t) s)
  append_contexts o (t ∷ ts) (r ∷ rs) added s =
      let (s', added') = append_one t r added (append_context_injection o.json t r s) in
      append_contexts o ts rs added' s'

  unfoldable pub announce : List ContextInjectionRecord → Exec V W (Unit {0})
  announce [] = pure tt
  announce (r ∷ rs) = observe (context_injected (r ∷ rs))

  unfoldable pub finish_contexts : Options V W → Carried → Exec V W (Unit {0})
  unfolding announce
  finish_contexts o k s =
      let (session, added) =
        append_contexts o k.context_messages k.context_injections [] s.session in
      announce added (record s { session = session })

  -- The result, name, arguments and content of each call, is `executed` of the final state.
  unfoldable pub execute_tool_batch : Options V W → List (ToolCall V) → Exec V W (Unit {0})
  execute_tool_batch o calls = do
    modify (λ s. record s { executed = [] })
    k ← run_calls o calls none_carried
    finish_contexts o k
