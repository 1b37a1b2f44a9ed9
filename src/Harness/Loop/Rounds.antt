-- ===== src/Harness/Loop/Rounds.antt =====
-- crates/mini-agent-core/src/harness.rs: a round of the loop, with the invariant of a run.
use mini_agent_harness.Prelude.{ℕ, ◌≡◌, ◌⊎◌, true, inl, inr, saturating_add}
use mini_agent_harness.Protocol.{ModelResponse}
use mini_agent_harness.Harness.Config.{HarnessConfig}
use mini_agent_harness.Harness.Loop.State.{
  Env, Loop, Act, pure, modify, announce_injections, journal_checkpoint,
}
use mini_agent_harness.Harness.Loop.Ask.{Answer, max_context_window_compaction_retries}
use mini_agent_harness.Harness.Loop.Turn.{
  must_compact, use_answer, report_response, ask_and_act, model_step, step_unless_continued,
  iteration,
}
use mini_agent_harness.Harness.Loop.Steer.{
  ControlAction, proceed, continue_turn, continues_same_turn, control_action, prepare_context,
  next_step,
}
use mini_agent_harness.Harness.Loop.Ensures.{
  At, Post-weaken, Ensures, Keeps, >>=-Ensures, >>-Ensures, >>-Keeps, >>=-Keeps, observe-Keeps,
  journal_checkpoint-Keeps,
}
use mini_agent_harness.Harness.Loop.Asked.{Answers, IsDistinctAnswer, ask_model-Ensures, with_step}
use mini_agent_harness.Harness.Loop.Steered.{
  Controlled, IsAllowed, control_action-Ensures, prepare_context-Keeps, check_response-Keeps,
  next_step-Ensures, announce_injections-Keeps,
}
use mini_agent_harness.Harness.Loop.Tooled.{
  push_request-Ensures, compact_if-Ensures, act_on-Ensures,
}

module _ {V W E : Type 0} (c : HarnessConfig) (start : ℕ) (v : Env V W E) where
  use_answer-Ensures :
      (k : ℕ) (a : Answer V) → IsDistinctAnswer a → Keeps c start k (use_answer v a)
  unfolding use_answer must_compact pure report_response modify
  use_answer-Ensures k a distinct = >>-Keeps c start k _ _ (check_response-Keeps c start v k r) (
      >>=-Keeps c start k _ _ (λ s h. h)
        λ compacting.
          >>-Keeps c start k _ _ (λ s h. observe-Keeps c start k _ s h)
            (>>-Keeps c start k _ _ (λ s h. h)
              (>>-Ensures c start (λ _. At c start k) _ _
                (push_request-Ensures c start v r.reasoning r.text r.tool_calls k)
                (>>-Ensures c start (λ _. At c start k) _ _
                  (compact_if-Ensures c start v r.reasoning r.text r.tool_calls k compacting)
                  (act_on-Ensures c start v k r distinct)))))
    where
      r : ModelResponse V
      r = a.response

  ask_and_act-Keeps : (n : ℕ) → Keeps c start n (ask_and_act v)
  unfolding ask_and_act
  ask_and_act-Keeps n =
      >>-Keeps c start n announce_injections _ (announce_injections-Keeps c start n) (
        >>-Keeps c start n (prepare_context v) _ (prepare_context-Keeps c start v n) (
          with_step c start v (λ _. At c start n) n _
            λ step s h.
              >>-Keeps c start n (journal_checkpoint v step) _
                (journal_checkpoint-Keeps c start v n step)
                (>>=-Ensures c start (λ _. At c start n) _ (use_answer v)
                  (ask_model-Ensures c start v n max_context_window_compaction_retries) uses)
                s h.0))
    where
      uses :
          (a : Answer V)
          → Ensures c start (Answers c start v n a) (use_answer v a) (λ _. At c start n)
      uses a s (at, distinct) = use_answer-Ensures n a distinct s at

  model_step-Ensures :
      (k : ℕ)
      → Ensures c start
          (At c start k)
          (model_step v)
          (λ _ s. At c start (saturating_add k 1) s × IsAllowed c (saturating_add k 1))
  unfolding model_step
  model_step-Ensures k =
      >>-Ensures c start Q next_step (ask_and_act v) (next_step-Ensures c start k)
        (still_allowed (ask_and_act v) (ask_and_act-Keeps n))
    where
      n : ℕ
      n = saturating_add k 1

      Q : Unit {0} → Loop V W E → Type 0
      Q _ s = At c start n s × IsAllowed c n

      still_allowed :
          (m : Act V W E (Unit {0}))
          → Keeps c start n m
          → Ensures c start (λ s. At c start n s × IsAllowed c n) m Q
      still_allowed m keeps s (h, allowed) =
          Post-weaken c start (λ _. At c start n) Q (m s) (λ _ _ at. (at, allowed)) (keeps s h)

  -- After a round the step is one more and within the limit, or the mode continues the Turn.
  abbrev pub Advanced : ℕ → Loop V W E → Type 0
  Advanced k s =
      (At c start (saturating_add k 1) s × IsAllowed c (saturating_add k 1))
      ⊎ (At c start k s × (continues_same_turn v.steering_mode ≡ true))

  pub iteration-Ensures : (k : ℕ) → Ensures c start (At c start k) (iteration v) (λ _. Advanced k)
  unfolding iteration
  iteration-Ensures k =
      >>=-Ensures c start (λ _. Advanced k) (control_action v) _
        (control_action-Ensures c start v k) by_action
    where
      by_action :
          (action : ControlAction)
          → Ensures c start
              (Controlled c start v k action)
              (step_unless_continued v action)
              (λ _. Advanced k)
      by_action proceed s h =
          unfold step_unless_continued in
          Post-weaken c start
            (λ _ s. At c start (saturating_add k 1) s × IsAllowed c (saturating_add k 1))
            (λ _. Advanced k) (model_step v s) (λ _ _ p. inl p) (model_step-Ensures k s h)
      by_action continue_turn s h = unfold step_unless_continued pure in inr h
