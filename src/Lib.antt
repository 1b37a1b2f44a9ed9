-- ===== src/Lib.antt =====
-- The harness of a coding agent: a model proposes tool calls, the harness runs them and keeps the
-- history that the model sees. This library models the core of crates/mini-agent-core, the data of
-- crates/mini-agent-protocol that it exchanges, the goals of crates/mini-agent-host and the
-- scheduled tasks of crates/mini-agent-capabilities.
--
-- A Thread (crates/mini-agent-core/src/thread.rs) runs one Turn at a time on a Harness (harness.rs),
-- which keeps the session's history (session.rs), asks the model, hands a response's calls to the tool
-- batch executor (tool_batch_executor.rs), which finds the tools in the router (tool.rs) and writes a
-- journal (execution.rs), and compacts the history (context_controller.rs) when it grows. Clients reach
-- a running Turn by the run control (run_control.rs) and its queue of inputs (input.rs). A goal
-- (crates/mini-agent-host/src/goal.rs) makes a session work by itself: each Turn that ends is judged, and
-- the goal goes on to its next milestone, or stops. A scheduled task
-- (crates/mini-agent-capabilities/src/scheduled_task.rs) is a marker of a delay for a later Turn.
--
-- Files, with the source under crates/mini-agent-core/src where no other path is given:
--   Protocol     crates/mini-agent-protocol/src: messages, events, inputs, outcomes, limits
--   Session      session.rs: the history, the repair of interrupted tool groups, context injections
--   Input        input.rs: PendingInputQueue
--   Control      run_control.rs: RunControl
--   Tools        tool.rs: ToolRouter; truncate_utf8 of tool_batch_executor.rs
--   Execution    execution.rs: checkpoints and journal entries
--   Batch        tool_batch_executor.rs: execute_tool_batch; Batch.Recover: recover_tool_batch
--   Compaction   context_controller.rs
--   Harness      harness.rs and turn_engine.rs: history, limits, restore, compaction, forks
--     Stream       turn_engine.rs: ModelEventForwarder
--     Loop         harness.rs, run_with_control_mode_and_tool_context: the variables of a run (State),
--                  the model call (Ask), control_action (Steer), the rounds (Turn), what comes before
--                  (Start)
--   Thread       thread.rs: the life cycle around a Turn, checkpoints, envelopes of events
--     Turn         run_turn_with_events_and_preflight_and_journal_resume; Variants has run_turn and
--                  those that give defaults to its options
--   Host         crates/mini-agent-host/src
--     Goal         goal.rs: HostWorkflowStore on a goal. What a state becomes (State), the files and the
--                  clock (Files), the operations (Update, Store), parse_verifier_verdict (Verdict)
--   Capabilities crates/mini-agent-capabilities/src
--     Schedule     scheduled_task.rs: ScheduledTaskManager (Manager), and its operations in sequence (Markers)
--   Examples     concrete inputs
--   Prelude      lists, words and texts
--
-- How the source is modelled. A method that mutates returns the new state, with its result second. A
-- String is the list of its UTF-8 bytes; a u64 or usize is a native number with the saturation of the
-- source written out. serde_json::Value is a type parameter; the sizes and the codec of serialised
-- values are the record Protocol.Json. The model, the tools, the delegate, the journal's sink, the
-- event sink's hooks and the capacities of the allocator are functions that the definitions take. The
-- cancel flag that other threads write is a function of the number of the read; in a run, what other
-- threads do to the run control comes before each time that the run touches it. An operation of the
-- run control is one step, although its source takes the lock and writes the flag in turn.
--
-- Loops. shrink_tail has the number of groups as fuel, the loops of trim_prefix_to_fit and
-- mechanical_compact the length of the prefix: each round drops a group or a message at least. decimal
-- has a digit of fuel for each unit, trim a round for each byte.
--
-- The run loop has a number of rounds as fuel: a run that does not suffice with it goes on at the end,
-- and with a step limit of n and steering that stops the Turn n + 1 rounds are enough. The inner loop
-- around a model call has the retries that are left. A request to the model is polled as often as the
-- provider says, and cancelled between two polls by what other threads do.
--
-- The manager of the scheduled tasks keeps them in a map, which is a list of ids and tasks here; times
-- are what the clock has, in the order in which it is read.
--
-- A goal is kept in a file: the operations are actions on a disk that is a type parameter, and may stop
-- with an error and keep what they have done. The record Host.Goal.Files.Files has what they call of
-- std::fs, serde_json and the clock, Writable that a state that is written is on the disk, and
-- KeepsVerdicts that the verdict can be written to another file. A token budget of 0 stands for one that
-- is not positive.
--
-- Not modelled: formatting and serde code, Plan mode and all else of the host, the tool of the
-- scheduled tasks and all else of the capabilities, and the other crates (app server, command line).
pub mod Prelude
pub mod Protocol
pub mod Session
pub mod Input
pub mod Control
pub mod Tools
pub mod Execution
pub mod Batch
pub mod Compaction
pub mod Harness
pub mod Thread
pub mod Host
pub mod Capabilities
pub mod Examples
