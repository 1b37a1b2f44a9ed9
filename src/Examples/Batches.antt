-- ===== src/Examples/Batches.antt =====
-- A batch of two calls on a router without tools: each call is answered with an error.
use mini_agent_harness.Prelude.{ℕ, ◌≡◌, refl, ◌++◌, ◌∷◌, List, [], none, false, codes, Distinct}
use mini_agent_harness.Protocol.{Message, user, is_error}
use mini_agent_harness.Session.Groups.{call_ids}
use mini_agent_harness.Session.Settled.{IsSettled}
use mini_agent_harness.Batch.Monad.{
  Options, BatchState, ok, ◌>>◌, modify, read_cancel, pure, observe, push_message, append_journal,
  ◌>>=◌,
}
use mini_agent_harness.Batch.Execute.{
  none_carried, run_calls, execute_tool_batch, run_call, start_call, journal_started,
  decide_outcome, run_tool, carry, announce, append_contexts, append_one, finish_contexts,
  request_of,
}
use mini_agent_harness.Batch.Replies.{Replies, run_calls-Replies}
use mini_agent_harness.Batch.Succeeds.{IsWritable, execute_tool_batch_succeeds}
use mini_agent_harness.Batch.Settles.{execute_tool_batch-IsSettled}
use mini_agent_harness.Batch.Record.{record_tool_result, journal_finished, publish_result}
use mini_agent_harness.Execution.{append_if_present}
use mini_agent_harness.Protocol.Outcome.{failed}
use mini_agent_harness.Session.State.{context_injections, context_injections_from_messages, push}
use mini_agent_harness.Tools.Router.{execute_outcome, find_tool}
use mini_agent_harness.Tools.Truncate.{
  ceil_char_boundary, ceil_from, floor_char_boundary, is_char_boundary, truncate_utf8,
}
use mini_agent_harness.Examples.Data.{json, router, call_a, call_b, request}

abbrev pub options : Options ℕ Unit
options = record {
  json = json;
  tools = router;
  cancel_at = λ n. false;
  sink = none;
  max_output_bytes = 16;
  context = none;
  turn_id = none;
  step = 1;
}

abbrev pub start : BatchState ℕ Unit
start = record {
  session = record { messages = user (codes "hi") ∷ request ∷ []; context_revision = 2 };
  events = [];
  journal = [];
  world = tt;
  reads = 0;
  executed = [];
}

pub distinct : Distinct (call_ids (call_a ∷ call_b ∷ []))
unfolding call_ids
distinct = (refl, (refl, tt))

batch_ok :
    execute_tool_batch options (call_a ∷ call_b ∷ []) start
    ≡ ((execute_tool_batch options (call_a ∷ call_b ∷ []) start).0, ok tt)
unfolding execute_tool_batch ◌>>◌ modify run_calls run_call read_cancel start_call journal_started
    pure observe decide_outcome none_carried run_tool record_tool_result journal_finished
    publish_result push_message carry announce append_contexts append_one finish_contexts request_of
    append_journal ◌>>=◌ append_if_present failed is_error context_injections
    context_injections_from_messages push execute_outcome find_tool ceil_char_boundary ceil_from
    floor_char_boundary is_char_boundary truncate_utf8
batch_ok = refl

execute_tool_batch-IsSettled_example :
    IsSettled (execute_tool_batch options (call_a ∷ call_b ∷ []) start).0.session.messages
execute_tool_batch-IsSettled_example =
    execute_tool_batch-IsSettled options (user (codes "hi") ∷ []) [] (codes "look")
      (call_a ∷ call_b ∷ []) start (execute_tool_batch options (call_a ∷ call_b ∷ []) start).0 refl
      distinct refl batch_ok

calls_ok :
    run_calls options (call_a ∷ call_b ∷ []) none_carried start
    ≡ ((run_calls options (call_a ∷ call_b ∷ []) none_carried start).0, ok none_carried)
unfolding execute_tool_batch ◌>>◌ modify run_calls run_call read_cancel start_call journal_started
    pure observe decide_outcome none_carried run_tool record_tool_result journal_finished
    publish_result push_message carry announce append_contexts append_one finish_contexts request_of
    append_journal ◌>>=◌ append_if_present failed is_error context_injections
    context_injections_from_messages push execute_outcome find_tool ceil_char_boundary ceil_from
    floor_char_boundary is_char_boundary truncate_utf8
calls_ok = refl

run_calls-Replies_example :
    (ms : List (Message ℕ)) × Replies 16 (call_a ∷ call_b ∷ []) ms
    × ((run_calls options (call_a ∷ call_b ∷ []) none_carried start).0.session.messages
        ≡ start.session.messages ++ ms)
run_calls-Replies_example =
    run_calls-Replies options (call_a ∷ call_b ∷ []) none_carried start
      (run_calls options (call_a ∷ call_b ∷ []) none_carried start).0 calls_ok

pub writable : IsWritable options
unfolding append_if_present
writable entry log = (log, refl)

execute_tool_batch_succeeds_example :
    (t : BatchState ℕ Unit) × (execute_tool_batch options (call_a ∷ call_b ∷ []) start ≡ (t, ok tt))
execute_tool_batch_succeeds_example =
    execute_tool_batch_succeeds options writable (call_a ∷ call_b ∷ []) start
