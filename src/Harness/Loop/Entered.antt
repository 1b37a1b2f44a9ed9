-- ===== src/Harness/Loop/Entered.antt =====
-- crates/mini-agent-core/src/harness.rs: what comes before the loop, with the invariant of a run.
use mini_agent_harness.Prelude.{
  ℕ, ◌-◌, ◌≤◌, refl, ap, Text, true, Option, none, some, List, [], ◌∷◌, length, arith,
}
use mini_agent_harness.Protocol.{Message, LimitExceeded, user}
use mini_agent_harness.Execution.{ExecutionCheckpoint}
use mini_agent_harness.Session.State
use mini_agent_harness.Session.Settled.{settled_from, IsSettled, repair-IsSettled}
use mini_agent_harness.Session.Complete.{append-IsSettled}
use mini_agent_harness.Harness.Config.{Result, ok, err, Harness, HarnessConfig}
use mini_agent_harness.Harness.History
use mini_agent_harness.Harness.Restored.{Restored, repaired_session, restore_session-Restored}
use mini_agent_harness.Harness.Compact.{Run}
use mini_agent_harness.Harness.Loop.State.{
  Env, Loop, Flow, next, done, fail, pure, modify, push_message, journal_checkpoint,
}
use mini_agent_harness.Harness.Loop.Steer.{prepare_context}
use mini_agent_harness.Harness.Loop.Start.{
  Resume, or_limit, check_quietly, repair, restore, undo_prompt, prepare_or_undo, enter_prompt,
  resume_pending, enter, check_prompt,
}
use mini_agent_harness.Harness.Loop.Ensures.{
  AtWith, At, Post, Post-weaken, Ensures, Keeps, Stays, >>-Ensures, >>-Keeps,
  journal_checkpoint-Keeps, on_run-Keeps,
}
use mini_agent_harness.Harness.Loop.Steered.{prepare_context-Keeps, check-Stays}
use mini_agent_harness.Harness.Loop.Resumed.{
  IsResumable, start_step, Somewhere, resume_batch-Ensures,
}

module _ {V W E : Type 0} (c : HarnessConfig) (start : ℕ) (v : Env V W E) where
  pub repair-Ensures :
      (k : ℕ)
      → Ensures c start
          (AtWith (λ (ms : List (Message V)). Unit {0}) c start k)
          (repair {V = V} {W = W} {E = E})
          (λ _. At c start k)
  unfolding repair modify
  repair-Ensures k s (_, fixed) = (
    repaired_session v.json (settled_from none) true s.run.harness.session
        (repair-IsSettled s.run.harness.session.messages),
    fixed,
  )

  pub check_prompt-Keeps :
      (k : ℕ) (text : Text) → Keeps {V = V} {W = W} {E = E} c start k (check_prompt text)
  unfolding check_prompt
  check_prompt-Keeps k text = on_run-Keeps c start k _ λ r. check-Stays c start v _ r

  undo_prompt-Post :
      (k len : ℕ) (p : Loop V W E × Flow V E Unit)
      → Post c start (λ _. At c start k) p
      → Post c start (λ _. At c start k) (undo_prompt len p)
  unfolding undo_prompt
  undo_prompt-Post k len (s, next a) h = h
  undo_prompt-Post k len (s, done o) h = h
  undo_prompt-Post k len (s, fail e) h = tt

  enter_prompt-Keeps : (k : ℕ) (text : Text) → Keeps c start k (enter_prompt v text)
  unfolding enter_prompt
  enter_prompt-Keeps k text s h =
      >>-Keeps c start k (push_message (user text)) _ pushes
        (>>-Keeps c start k (journal_checkpoint v 1) _ (journal_checkpoint-Keeps c start v k 1)
          prepares)
        s h
    where
      pushes : Keeps {V = V} {W = W} {E = E} c start k (push_message (user text))
      pushes s (settled, fixed) =
          unfold push_message modify State.push in
          (append-IsSettled s.run.harness.session.messages (user text ∷ []) settled refl, fixed)

      prepares : Keeps c start k (prepare_or_undo v (length s.run.harness.session.messages))
      prepares s h =
          unfold prepare_or_undo in
          undo_prompt-Post k _ (prepare_context v s) (prepare_context-Keeps c start v k s h)

  Restored-Stays :
      (r : Run V W E) (p : Harness V W E × Result LimitExceeded Unit)
      → Restored v.json r.harness p.0 p.1
      → Stays c start IsSettled r.harness (or_limit r p)
  unfolding or_limit
  Restored-Stays r (h, ok _) ((settled, within), (bytes, same)) = (
    ap (λ (x : Harness V W E). x.config) same,
    ap (λ (x : Harness V W E). x.model) same,
    λ _. settled,
  )
  Restored-Stays r (h, err e) same = tt

  restore-Ensures :
      (k : ℕ) (checkpoint : ExecutionCheckpoint V)
      → checkpoint.next_model_step ≤ start
      → Ensures c start
          (At c start k)
          (restore v checkpoint)
          (λ _. At c start (checkpoint.next_model_step - 1))
  unfolding restore
  restore-Ensures k checkpoint le =
      >>-Ensures c start (λ _. At c start (checkpoint.next_model_step - 1)) _ _
        (on_run-Keeps c start k _ restores)
        (>>-Ensures c start (λ _. At c start (checkpoint.next_model_step - 1)) _ _
          (on_run-Keeps c start k _ λ r. quiet _ r) sets)
    where
      restores :
          (r : Run V W E)
          → Stays c start IsSettled r.harness
              (or_limit r (History.restore_history v.json checkpoint.messages r.harness))
      restores r =
          unfold History.restore_history in
          Restored-Stays r _
            (restore_session-Restored v.json (State.from_messages checkpoint.messages) r.harness)

      quiet :
          (e : Option LimitExceeded) (r : Run V W E)
          → Stays c start IsSettled r.harness (check_quietly e r)
      quiet none r = unfold check_quietly in (refl, refl, λ h. h)
      quiet (some e) r = unfold check_quietly in tt

      sets :
          Ensures c start
            (At c start k)
            (modify (λ (s : Loop V W E). record s {
              final_text = checkpoint.final_text;
              step = checkpoint.next_model_step - 1;
            }))
            (λ _. At c start (checkpoint.next_model_step - 1))
      sets s (settled, (distinct, config, step, below)) =
          unfold modify in (settled, (distinct, config, refl, λ some. omega (arith, le)))

  -- Before the loop a run is at some step, with complete tool groups.
  pub enter-Ensures :
      (k : ℕ) (prompt : Text) (resume : Resume V)
      → IsResumable resume
      → start_step resume ≤ start
      → Ensures c start (At c start k) (enter v prompt resume) (λ _. Somewhere c start v)
  unfolding enter resume_pending pure
  enter-Ensures k prompt none good le s h =
      Post-weaken c start (λ _. At c start k) (λ _. Somewhere c start v) (enter_prompt v prompt s)
        (λ _ t at. (k, at)) (enter_prompt-Keeps k prompt s h)
  enter-Ensures k prompt (some (checkpoint, none)) good le s h =
      >>-Ensures c start (λ _. Somewhere c start v) (restore v checkpoint) _
        (restore-Ensures k checkpoint le) (λ t at. (checkpoint.next_model_step - 1, at)) s h
  enter-Ensures k prompt (some (checkpoint, some batch)) good le s h =
      >>-Ensures c start (λ _. Somewhere c start v) (restore v checkpoint) _
        (restore-Ensures k checkpoint le)
        (resume_batch-Ensures c start v (checkpoint.next_model_step - 1) checkpoint batch good le) s
        h
