-- ===== src/Examples/Threads.antt =====
-- A Thread after one Turn, its checkpoint, and the envelopes of a model step.
use mini_agent_harness.Prelude.{
  ℕ, ◌≤◌, ◌≡◌, ◌≢◌, refl, ◌∷◌, List, [], none, some, codes, map, arith,
}
use mini_agent_harness.Protocol.{Event, ThreadStatus}
use mini_agent_harness.Session.Bytes.{context_bytes_for}
use mini_agent_harness.Tools.Router.{specs}
use mini_agent_harness.Harness.Config.{ok}
use mini_agent_harness.Harness.Within.{IsWithin}
use mini_agent_harness.Protocol.Injection.{from_context_message}
use mini_agent_harness.Prelude.{split_once}
use mini_agent_harness.Thread.State.{Thread, ThreadCheckpoint, checkpoint, restore_checkpoint}
use mini_agent_harness.Thread.Checkpoints.{Admits, checkpoint-restore_checkpoint}
use mini_agent_harness.Thread.Envelopes.{Hooks, EnvelopeObserver, observe, observe_all}
use mini_agent_harness.Thread.Sequences.{Ascending, observe_all-Ascending}
use mini_agent_harness.Examples.Data.{json, harness, settled_history-IsSettled}

abbrev settled_thread : Thread ℕ Unit Unit
settled_thread = record {
  id = codes "t";
  harness = harness;
  status = ThreadStatus.idle;
  next_turn_number = 2;
  last_turn_id = some (codes "turn-t-1");
  next_event_sequence = 5;
}

abbrev other_thread : Thread ℕ Unit Unit
other_thread = record {
  id = codes "u";
  harness = record harness { session = record { messages = []; context_revision = 0 } };
  status = ThreadStatus.failed;
  next_turn_number = 1;
  last_turn_id = none;
  next_event_sequence = 1;
}

idle_not_running : ThreadStatus.idle ≢ ThreadStatus.running
idle_not_running e = cc e

failed_not_running : ThreadStatus.failed ≢ ThreadStatus.running
failed_not_running e = cc e

within : IsWithin json other_thread.harness.config settled_thread.harness.session.messages
unfolding from_context_message split_once
within = (
  omega arith,
  (
    (omega arith, omega arith),
    (
      omega arith,
      (
        omega arith,
        (
          (omega arith, omega arith),
          (omega arith, (omega arith, ((omega arith, omega arith), tt))),
        ),
      ),
    ),
  ),
)

admitted : Admits json other_thread.harness settled_thread.harness.session
unfolding context_bytes_for specs
admitted = (refl, ((settled_history-IsSettled, within), omega arith))

checkpoint-restore_checkpoint_example :
    (c : ThreadCheckpoint ℕ) × ((checkpoint settled_thread ≡ ok c)
      × (restore_checkpoint json c other_thread ≡ (
        record settled_thread {
          harness = record other_thread.harness { session = settled_thread.harness.session };
        },
        ok tt,
      )))
checkpoint-restore_checkpoint_example =
    checkpoint-restore_checkpoint json settled_thread other_thread idle_not_running
      failed_not_running admitted (omega arith) (omega arith)

abbrev hooks : Hooks ℕ
hooks = record { before_event = λ e n. n; after_event = λ e n. n }

abbrev step : List (Event ℕ)
step = Event.model_started 1 10 [] [] ∷ Event.assistant_text_delta (codes "hi") ∷ []

abbrev fresh : EnvelopeObserver ℕ
fresh = record {
  emitted = [];
  thread_id = codes "t";
  turn_id = codes "turn-t-1";
  next_sequence = 5;
  active_compaction_item_id = none;
  active_model_item_id = none;
}

below : (observe_all hooks step fresh).next_sequence ≤ 7
unfolding observe_all observe
below = omega arith

observe_all-Ascending_example :
    let o = observe_all hooks step fresh in
    Ascending 5 o.emitted o.next_sequence × (map (λ e. e.event) o.emitted ≡ step)
observe_all-Ascending_example =
    observe_all-Ascending hooks
      (λ e. ((λ n h. (omega arith, omega arith)), (λ n h. (omega arith, omega arith)))) 5 step fresh
      (omega arith) (omega (arith, below)) (omega arith)
