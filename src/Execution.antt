-- ===== src/Execution.antt =====
-- crates/mini-agent-core/src/execution.rs: what a durable journal holds of a Turn in progress.
use mini_agent_harness.Prelude.{ℕ, Text, Bool, Option, none, some, List, [], ◌∷◌, ◌++◌}
use mini_agent_harness.Protocol.{Message, ToolCall, ToolExecutionOutcome, TurnInput}

pub data ExecutionPhase : Type 0 where
  model_request tool_batch : ExecutionPhase

pub record ExecutionCheckpoint (V : Type 0) : Type 0 where
  pub turn_id : Text
  pub input : TurnInput
  pub messages : List (Message V)
  pub next_model_step : ℕ
  pub final_text : Text
  pub phase : ExecutionPhase
  pub applied_steer_request_ids : List Text

pub record ToolBatchIntent (V : Type 0) : Type 0 where
  pub turn_id : Text
  pub step : ℕ
  pub reasoning : Text
  pub text : Text
  pub calls : List (ToolCall V)

pub record ExecutionToolCall (V : Type 0) : Type 0 where
  pub call : ToolCall V
  pub started : Bool
  pub outcome : Option ToolExecutionOutcome

pub record ExecutionToolBatch (V : Type 0) : Type 0 where
  pub intent : ToolBatchIntent V
  pub calls : List (ExecutionToolCall V)

pub record ExecutionRunContext : Type 0 where
  pub turn_id : Text
  pub input : TurnInput
  pub applied_steer_request_ids : List Text

pub data ExecutionJournalEntry (V : Type 0) : Type 0 where
  checkpoint : ExecutionCheckpoint V → ExecutionJournalEntry V
  -- turn id, request id, text
  steer_accepted : Text → Text → Text → ExecutionJournalEntry V
  -- turn id, request id, reason
  steer_unapplied : Text → Text → Text → ExecutionJournalEntry V
  tool_batch_started : ToolBatchIntent V → ExecutionJournalEntry V
  -- turn id, step, call id
  tool_call_started : Text → ℕ → Text → ExecutionJournalEntry V
  tool_call_finished : Text → ℕ → Text → ToolExecutionOutcome → ExecutionJournalEntry V
  -- turn id, step
  tool_batch_settled : Text → ℕ → ExecutionJournalEntry V
  -- turn id, reason
  waiting_for_continue : Text → Text → ExecutionJournalEntry V
  -- turn id, request id, checkpoint sequence
  resumed : Text → Text → ℕ → ExecutionJournalEntry V
  -- turn id, phase, time, time of the last progress
  heartbeat : Text → ExecutionPhase → ℕ → ℕ → ExecutionJournalEntry V
  -- turn id, reason
  needs_reconciliation : Text → Text → ExecutionJournalEntry V
  settled : Text → ExecutionJournalEntry V

-- `ExecutionJournalSink::append` is the host's: given what is written already, it refuses an entry
-- with an error, or writes it. Core ignores the sequence number that it returns.
abbrev pub Sink : Type 0 → Type 0
Sink V = List (ExecutionJournalEntry V) → ExecutionJournalEntry V → Option Text

pub data Appended (V : Type 0) : Type 0 where
  written : List (ExecutionJournalEntry V) → Appended V
  refused : Text → Appended V

append_to :
    {V : Type 0}
    → Option Text
    → ExecutionJournalEntry V
    → List (ExecutionJournalEntry V)
    → Appended V
append_to none entry log = written (log ++ entry ∷ [])
append_to (some error) entry log = refused error

unfoldable pub append_if_present :
    {V : Type 0}
    → Option (Sink V)
    → ExecutionJournalEntry V
    → List (ExecutionJournalEntry V)
    → Appended V
unfolding append_to
append_if_present none entry log = written log
append_if_present (some sink) entry log = append_to (sink log entry) entry log
