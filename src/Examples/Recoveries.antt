-- ===== src/Examples/Recoveries.antt =====
-- Batches that an earlier process began: one whose journal has both outcomes, and one with a call that
-- started and may not run again.
use mini_agent_harness.Prelude.{
  ℕ, ◌≡◌, ◌⊎◌, refl, ◌∷◌, Text, [], none, some, true, false, codes, All,
}
use mini_agent_harness.Protocol.{ToolExecutionOutcome, ToolExecutionStatus, user}
use mini_agent_harness.Session.Settled.{IsSettled}
use mini_agent_harness.Execution.{ExecutionToolBatch}
use mini_agent_harness.Batch.Monad.{BatchState}
use mini_agent_harness.Batch.Recover.{
  recover_tool_batch, recovered, failed, needs_reconciliation, journal, unsettled_text,
}
use mini_agent_harness.Batch.Uncertain.{IsReplayable, FirstUncertain}
use mini_agent_harness.Batch.Recovered.{recover_tool_batch-IsSettled, recover_tool_batch-refused}
use mini_agent_harness.Batch.Durable.{results, recover_tool_batch-durable}
use mini_agent_harness.Examples.Data.{call_a, call_b}
use mini_agent_harness.Examples.Batches.{options, start, distinct, writable}

abbrev outcome : ToolExecutionOutcome
outcome = record {
  status = ToolExecutionStatus.completed;
  content = codes "read";
  output_truncated = false;
  context_messages = [];
  context_injections = [];
}

abbrev pub durable_batch : ExecutionToolBatch ℕ
durable_batch = record {
  intent = record {
    turn_id = codes "t";
    step = 1;
    reasoning = [];
    text = codes "look";
    calls = call_a ∷ call_b ∷ [];
  };
  calls =
      record { call = call_a; started = true; outcome = some outcome }
      ∷ record { call = call_b; started = false; outcome = some outcome }
      ∷ [];
}

abbrev open_batch : ExecutionToolBatch ℕ
open_batch = record durable_batch {
  calls =
      record { call = call_a; started = true; outcome = some outcome }
      ∷ record { call = call_b; started = true; outcome = none }
      ∷ [];
}

recover_tool_batch-durable_example :
    (t : BatchState ℕ Unit) × (recover_tool_batch options durable_batch start ≡ (t, recovered))
    × (t.world ≡ start.world)
    × (t.executed ≡ results 16 durable_batch.calls)
recover_tool_batch-durable_example =
    recover_tool_batch-durable options durable_batch start writable (refl, (refl, tt))

recover_tool_batch-refused_example :
    ((c : _) × FirstUncertain options open_batch.calls c
      × (recover_tool_batch options open_batch start
          ≡ (start, failed (needs_reconciliation (unsettled_text c.call)))))
    ⊎ (All (IsReplayable options) open_batch.calls
        × ((t : BatchState ℕ Unit) × ((recover_tool_batch options open_batch start ≡ (t, recovered))
              ⊎ ((reason : Text) × (recover_tool_batch options open_batch start
                    ≡ (t, failed (journal reason)))))))
recover_tool_batch-refused_example = recover_tool_batch-refused options open_batch start

ended :
    (t : BatchState ℕ Unit) × (recover_tool_batch options durable_batch start ≡ (t, recovered))
    × (t.world ≡ start.world)
    × (t.executed ≡ results 16 durable_batch.calls)
ended = recover_tool_batch-durable options durable_batch start writable (refl, (refl, tt))

recover_tool_batch-IsSettled_example : IsSettled ended.0.session.messages
recover_tool_batch-IsSettled_example =
    recover_tool_batch-IsSettled options (user (codes "hi") ∷ []) [] (codes "look") durable_batch
      start ended.0 refl distinct refl ended.1
