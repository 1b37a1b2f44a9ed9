-- ===== src/Harness/Loop/Start.antt =====
-- crates/mini-agent-core/src/harness.rs, `run_with_control_mode_and_tool_context`: what comes before
-- the loop, for a new prompt and for a Turn that resumes from its checkpoint.
use mini_agent_harness.Prelude.{
  ℕ, ◌-◌, Text, Bool, Option, none, some, List, [], ◌&&◌, codes, length, text_eq, ◌==◌,
  if◌then◌else◌,
}
use mini_agent_harness.Protocol.{LimitExceeded, user, assistant, run_started}
use mini_agent_harness.Execution.{
  ExecutionCheckpoint, ExecutionToolBatch, ExecutionRunContext, ExecutionJournalEntry,
  needs_reconciliation,
}
use mini_agent_harness.Control.Run.{RunControl}
use mini_agent_harness.Session.State
use mini_agent_harness.Tools.Router
use mini_agent_harness.Batch.Monad.{BatchState}
use mini_agent_harness.Batch.Recover
use mini_agent_harness.Batch.Recover.{
  Recovery, validate_tool_batch_recovery, recover_tool_batch, recovered, failed, journal,
}
use mini_agent_harness.Harness.Config.{Result, ok, err, Harness, HarnessError}
use mini_agent_harness.Harness.History
use mini_agent_harness.Harness.Compact.{Run}
use mini_agent_harness.Harness.Loop.State.{
  Env, Loop, Flow, next, done, fail, Act, pure, modify, observe, push_message, on_run, journal_with,
  journal_checkpoint, enter_batch, leave_batch, batch_options, ◌>>◌,
}
use mini_agent_harness.Harness.Loop.Ask.{is_compact}
use mini_agent_harness.Harness.Loop.Turn.{journal_settled, run_loop}
use mini_agent_harness.Harness.Loop.Steer.{check, prepare_context}

-- what a Turn resumes from: a checkpoint, and the batch that was pending
abbrev pub Resume : Type 0 → Type 0
Resume V = Option (ExecutionCheckpoint V × Option (ExecutionToolBatch V))

unfoldable pub prompt_of : {V : Type 0} → Text → Resume V → Text
prompt_of prompt none = prompt
prompt_of prompt (some (c, batch)) = c.input.text

unfoldable pub same_step : {V : Type 0} → ExecutionCheckpoint V → ExecutionToolBatch V → Bool
same_step c batch =
    text_eq c.turn_id batch.intent.turn_id && (c.next_model_step == batch.intent.step)

abbrev pub mismatch_text : Text
mismatch_text = codes "checkpoint and pending tool batch do not identify the same model step"

module _ {V W E : Type 0} where
  -- `.map_err(HarnessError::Limit)?`, which tells the observer nothing
  unfoldable pub or_limit :
      Run V W E
      → Harness V W E × Result LimitExceeded Unit
      → Run V W E × Result (HarnessError E) Unit
  or_limit r (h, ok _) = (record r { harness = h }, ok tt)
  or_limit r (h, err e) = (record r { harness = h }, err (HarnessError.limit e))

  unfoldable pub check_quietly :
      Option LimitExceeded → Run V W E → Run V W E × Result (HarnessError E) Unit
  check_quietly none r = (r, ok tt)
  check_quietly (some e) r = (r, err (HarnessError.limit e))

  unfoldable pub repair : Act V W E (Unit {0})
  repair = modify (λ s. record s {
    run = record s.run {
      harness = record s.run.harness {
        session = (State.repair_incomplete_tool_groups s.run.harness.session).0;
      };
    };
  })

  -- the history, the text and the step of the checkpoint
  unfoldable pub restore : Env V W E → ExecutionCheckpoint V → Act V W E (Unit {0})
  restore v c = do
    on_run (λ r. or_limit r (History.restore_history v.json c.messages r.harness))
    on_run (λ r. check_quietly (History.ensure_context_limit v.json v.specs r.harness) r)
    modify (λ s. record s { final_text = c.final_text; step = c.next_model_step - 1 })

  -- a rejected prompt leaves the history as it was
  unfoldable pub undo_prompt :
      ℕ → Loop V W E × Flow V E (Unit {0}) → Loop V W E × Flow V E (Unit {0})
  undo_prompt len (s, next a) = (s, next a)
  undo_prompt len (s, done o) = (s, done o)
  undo_prompt len (s, fail e) = (
    if is_compact s.run.harness.config.context_limit_behavior then s else record s {
      run = record s.run {
        harness = record s.run.harness {
          session = State.truncate_messages len s.run.harness.session;
        };
      };
    },
    fail e,
  )

  unfoldable pub prepare_or_undo : Env V W E → ℕ → Act V W E (Unit {0})
  prepare_or_undo v len s = undo_prompt len (prepare_context v s)

  unfoldable pub enter_prompt : Env V W E → Text → Act V W E (Unit {0})
  enter_prompt v prompt s =
      (do
        push_message (user prompt)
        journal_checkpoint v 1
        prepare_or_undo v (length s.run.harness.session.messages))
        s

  unfoldable pub refused_entry : Text → ExecutionRunContext → Loop V W E → ExecutionJournalEntry V
  refused_entry reason execution s = needs_reconciliation execution.turn_id reason

  unfoldable pub refuse : {A : Type 0} → Text → Act V W E A
  refuse reason s = (s, fail (HarnessError.needs_reconciliation reason))

  unfoldable pub settle_recovery :
      Env V W E → Loop V W E → BatchState V W × Recovery → Loop V W E × Flow V E (Unit {0})
  settle_recovery v s (b, recovered) = (leave_batch v s b, next tt)
  settle_recovery v s (b, failed (Recover.needs_reconciliation reason)) =
      (leave_batch v s b, fail (HarnessError.needs_reconciliation reason))
  settle_recovery v s (b, failed (journal e)) =
      (leave_batch v s b, fail (HarnessError.execution_journal e))

  unfoldable pub run_recovery : Env V W E → ExecutionToolBatch V → Act V W E (Unit {0})
  run_recovery v batch s =
      settle_recovery v s (recover_tool_batch (batch_options v none s) batch (enter_batch s))

  -- the batch that was pending, after its two checks
  unfoldable pub recover_pending : Env V W E → ExecutionToolBatch V → Act V W E (Unit {0})
  recover_pending v batch = do
    push_message (assistant batch.intent.reasoning batch.intent.text batch.intent.calls)
    modify (λ s. record s { final_text = batch.intent.text; step = batch.intent.step })
    run_recovery v batch
    journal_settled v

  unfoldable pub refuse_or_recover :
      Env V W E → ExecutionToolBatch V → Option Text → Act V W E (Unit {0})
  refuse_or_recover v batch (some reason) = journal_with v (refused_entry reason) >> refuse reason
  refuse_or_recover v batch none = recover_pending v batch

  unfoldable pub resume_batch :
      Env V W E → ExecutionCheckpoint V → ExecutionToolBatch V → Act V W E (Unit {0})
  resume_batch v c batch s =
      (if same_step c batch
          then refuse_or_recover v batch (validate_tool_batch_recovery s.run.harness.tools batch)
          else refuse mismatch_text)
        s

  unfoldable pub resume_pending :
      Env V W E → ExecutionCheckpoint V → Option (ExecutionToolBatch V) → Act V W E (Unit {0})
  resume_pending v c none = pure tt
  resume_pending v c (some batch) = resume_batch v c batch

  unfoldable pub enter : Env V W E → Text → Resume V → Act V W E (Unit {0})
  enter v prompt none = enter_prompt v prompt
  enter v prompt (some (c, batch)) = do restore v c; resume_pending v c batch

  unfoldable pub check_prompt : Text → Act V W E (Unit {0})
  check_prompt text = on_run (λ r. check (History.validate_user_input text r.harness) r)

  -- the whole run, with that many rounds of the loop
  unfoldable pub run_turn : Env V W E → Text → Resume V → ℕ → Act V W E (Unit {0})
  run_turn v prompt resume fuel = do
    repair
    check_prompt (prompt_of prompt resume)
    observe (run_started (prompt_of prompt resume))
    enter v (prompt_of prompt resume) resume
    run_loop v fuel

  -- the variables of a run at its start
  unfoldable pub begin :
      Run V W E
      → RunControl
      → List (ExecutionJournalEntry V)
      → Option ExecutionRunContext
      → Loop V W E
  begin r control log execution = record {
    run = r;
    control = control;
    ticks = 0;
    journal = log;
    execution = execution;
    final_text = [];
    step = 0;
    duplicates = 0;
    last_tool_batch = none;
  }

  unfoldable pub run_with_control_mode_and_tool_context :
      Env V W E
      → Text
      → Resume V
      → ℕ
      → Run V W E
      → RunControl
      → List (ExecutionJournalEntry V)
      → Option ExecutionRunContext
      → Loop V W E × Flow V E (Unit {0})
  run_with_control_mode_and_tool_context v prompt resume fuel r control log execution =
      run_turn (record v { specs = Router.specs r.harness.tools }) prompt resume fuel
        (begin r control log execution)
