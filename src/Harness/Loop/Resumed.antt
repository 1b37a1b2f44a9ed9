-- ===== src/Harness/Loop/Resumed.antt =====
-- crates/mini-agent-core/src/harness.rs: a Turn that resumes with a pending batch, with the invariant of
-- a run.
use mini_agent_harness.Prelude.{
  ℕ, ◌≤◌, ◌≡◌, refl, Text, Bool, true, false, Option, none, some, Distinct, arith, if◌then◌else◌,
}
use mini_agent_harness.Execution.{ToolBatchIntent, ExecutionCheckpoint, ExecutionToolBatch}
use mini_agent_harness.Session.Groups.{call_ids}
use mini_agent_harness.Session.Settled.{IsSettled}
use mini_agent_harness.Batch.Monad.{Options, BatchState}
use mini_agent_harness.Batch.Recover
use mini_agent_harness.Batch.Recover.{
  Recovery, validate_tool_batch_recovery, recover_tool_batch, recovered, failed, journal,
}
use mini_agent_harness.Batch.Recovered.{calls_of, recover_tool_batch-IsSettled}
use mini_agent_harness.Harness.Config.{HarnessConfig}
use mini_agent_harness.Harness.Loop.State.{
  Env, Loop, Act, modify, enter_batch, leave_batch, batch_options,
}
use mini_agent_harness.Harness.Loop.Start.{
  Resume, same_step, refused_entry, refuse, settle_recovery, run_recovery, recover_pending,
  refuse_or_recover, resume_batch, mismatch_text,
}
use mini_agent_harness.Harness.Loop.Ensures.{
  At, Post, Post-weaken, Ensures, >>-Ensures, journal_with-KeepsWith,
}
use mini_agent_harness.Harness.Loop.Tooled.{OpenAt, push_request-Ensures, journal_settled-Keeps}

-- The pending batch has the calls of its intent, whose ids are distinct.
abbrev pub IsWellJournaled : {V : Type 0} → ExecutionToolBatch V → Type 0
IsWellJournaled batch =
    (calls_of batch.calls ≡ batch.intent.calls) × Distinct (call_ids batch.intent.calls)

abbrev pub IsResumable : {V : Type 0} → Resume V → Type 0
IsResumable none = Unit
IsResumable (some (checkpoint, none)) = Unit
IsResumable (some (checkpoint, some batch)) = IsWellJournaled batch

-- the first model step of the run, less one for a new prompt
abbrev pub start_step : {V : Type 0} → Resume V → ℕ
start_step none = 0
start_step (some (checkpoint, batch)) = checkpoint.next_model_step

module _ {V W E : Type 0} (c : HarnessConfig) (start : ℕ) (v : Env V W E) where
  -- at some step
  abbrev pub Somewhere : Loop V W E → Type 0
  Somewhere s = (k : ℕ) × At c start k s

  refuse-Ensures :
      {A : Type 0} (P : Loop V W E → Type 0) (Q : A → Loop V W E → Type 0) (reason : Text)
      → Ensures c start P (refuse reason) Q
  unfolding refuse
  refuse-Ensures P Q reason s h = tt

  run_recovery-Ensures :
      (k : ℕ) (batch : ExecutionToolBatch V)
      → IsWellJournaled batch
      → Ensures c start
          (OpenAt c start v batch.intent.reasoning batch.intent.text batch.intent.calls k)
          (run_recovery v batch)
          (λ _. At c start k)
  unfolding run_recovery enter_batch
  run_recovery-Ensures k batch (same, distinct) s ((before, e, settled), fixed) =
      go (recover_tool_batch options batch (enter_batch s)) refl
    where
      options : Options V W
      options = batch_options v none s

      go :
          (p : BatchState V W × Recovery)
          → recover_tool_batch options batch (enter_batch s) ≡ p
          → Post c start (λ _. At c start k) (settle_recovery v s p)
      go (b, failed (Recover.needs_reconciliation reason)) q = unfold settle_recovery in tt
      go (b, failed (journal x)) q = unfold settle_recovery in tt
      go (b, recovered) q =
          unfold settle_recovery leave_batch in
          (
            recover_tool_batch-IsSettled options before batch.intent.reasoning batch.intent.text
                batch (enter_batch s) b settled (rw same distinct) (rw same e) q,
            fixed,
          )

  recover_pending-Ensures :
      (k : ℕ) (batch : ExecutionToolBatch V)
      → IsWellJournaled batch
      → batch.intent.step ≤ start
      → Ensures c start (At c start k) (recover_pending v batch) (λ _. At c start batch.intent.step)
  unfolding recover_pending
  recover_pending-Ensures k batch good le =
      >>-Ensures c start (λ _. At c start n) _ _
        (push_request-Ensures c start v intent.reasoning intent.text intent.calls k)
        (>>-Ensures c start (λ _. At c start n) _ _ sets
          (>>-Ensures c start (λ _. At c start n) _ _ (run_recovery-Ensures n batch good)
            (journal_settled-Keeps c start v n)))
    where
      intent : ToolBatchIntent V
      intent = batch.intent

      n : ℕ
      n = intent.step

      sets :
          Ensures c start
            (OpenAt c start v intent.reasoning intent.text intent.calls k)
            (modify (λ (s : Loop V W E). record s { final_text = intent.text; step = intent.step }))
            (λ _. OpenAt c start v intent.reasoning intent.text intent.calls n)
      sets s (opened, (distinct, config, step, below)) =
          unfold modify in (opened, (distinct, config, refl, λ some. omega (arith, le)))

  refuse_or_recover-Ensures :
      (k : ℕ) (batch : ExecutionToolBatch V) (reason : Option Text)
      → IsWellJournaled batch
      → batch.intent.step ≤ start
      → Ensures c start (At c start k) (refuse_or_recover v batch reason) (λ _. Somewhere)
  unfolding refuse_or_recover
  refuse_or_recover-Ensures k batch (some reason) good le s h =
      >>-Ensures c start (λ _. Somewhere) _ _
        (journal_with-KeepsWith c start IsSettled v k (refused_entry reason))
        (refuse-Ensures (At c start k) (λ _. Somewhere) reason) s h
  refuse_or_recover-Ensures k batch none good le s h =
      Post-weaken c start (λ _. At c start batch.intent.step) (λ _. Somewhere)
        (recover_pending v batch s) (λ _ t at. (batch.intent.step, at))
        (recover_pending-Ensures k batch good le s h)

  pub resume_batch-Ensures :
      (k : ℕ) (checkpoint : ExecutionCheckpoint V) (batch : ExecutionToolBatch V)
      → IsWellJournaled batch
      → checkpoint.next_model_step ≤ start
      → Ensures c start (At c start k) (resume_batch v checkpoint batch) (λ _. Somewhere)
  unfolding resume_batch
  resume_batch-Ensures k checkpoint batch good le s h = go (same_step checkpoint batch) refl
    where
      go :
          (b : Bool)
          → same_step checkpoint batch ≡ b
          → let m : Act V W E Unit =
              (if b
                then refuse_or_recover v batch
                    (validate_tool_batch_recovery s.run.harness.tools batch)
                else refuse mismatch_text) in
            Post c start (λ _. Somewhere) (m s)
      go true same =
          refuse_or_recover-Ensures k batch _ good (unfold same_step in ground (arith, same, le)) s
            h
      go false differ = refuse-Ensures (At c start k) (λ _. Somewhere) mismatch_text s h
