-- ===== src/Examples/Harnesses.antt =====
-- A harness with a settled history whose model fails, so that compaction is mechanical.
use mini_agent_harness.Prelude.{◌≡◌, [], codes, false}
use mini_agent_harness.Harness.Config.{ForkContextPolicy}
use mini_agent_harness.Harness.History.{restore_session}
use mini_agent_harness.Harness.Restored.{Restored, restore_session-Restored}
use mini_agent_harness.Harness.Compact.{compact_context_to}
use mini_agent_harness.Harness.Compacted.{Compacted, compact_context_to-Compacted}
use mini_agent_harness.Harness.Fork.{prepare_fork_checkpoint}
use mini_agent_harness.Harness.Forked.{Prepared, prepare_fork_checkpoint-Prepared}
use mini_agent_harness.Examples.Data.{json, harness, open_history}

restore_session-Restored_example :
    let (h, r) =
      restore_session json (record { messages = open_history; context_revision = 4 }) harness in
    Restored json harness h r
restore_session-Restored_example =
    restore_session-Restored json (record { messages = open_history; context_revision = 4 }) harness

compact_context_to-Compacted_example : Compacted json [] harness (
    compact_context_to json
      (codes "sum up")
      []
      60
      false
      (record { harness = harness; events = []; world = tt }))
compact_context_to-Compacted_example =
    compact_context_to-Compacted json [] (codes "sum up") 60 false
      (record { harness = harness; events = []; world = tt })

prepare_fork_checkpoint-Prepared_example :
    let ((w, h), answer) =
      prepare_fork_checkpoint json (codes "sum up") ForkContextPolicy.compact tt harness in
    (h ≡ harness) × Prepared json harness answer
prepare_fork_checkpoint-Prepared_example =
    prepare_fork_checkpoint-Prepared json (codes "sum up") ForkContextPolicy.compact tt harness
