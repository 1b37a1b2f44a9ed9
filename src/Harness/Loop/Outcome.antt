-- ===== src/Harness/Loop/Outcome.antt =====
-- crates/mini-agent-core/src/harness.rs: the outcome of a run, and the rounds that it takes.
use mini_agent_harness.Prelude.{
  ℕ, zero, suc, ◌+◌, ◌<◌, ◌≤◌, ◌≡◌, refl, sym, ap, ◌∙◌, Text, true, false, inl, inr, Option, List,
  u64_max, saturating_add, arith,
}
use mini_agent_harness.Protocol.{Message, run_started}
use mini_agent_harness.Execution.{ExecutionJournalEntry, ExecutionRunContext}
use mini_agent_harness.Control.Run.{RunControl, SteeringMode}
use mini_agent_harness.Tools.Router
use mini_agent_harness.Harness.Config.{HarnessConfig}
use mini_agent_harness.Harness.Compact.{Run}
use mini_agent_harness.Harness.Loop.State.{Env, Loop, Flow, next, done, fail, Act, pure, observe}
use mini_agent_harness.Harness.Loop.Turn.{iteration, run_loop}
use mini_agent_harness.Harness.Loop.Steer.{continues_same_turn}
use mini_agent_harness.Harness.Loop.Start.{
  Resume, prompt_of, repair, check_prompt, enter, run_turn, begin,
  run_with_control_mode_and_tool_context,
}
use mini_agent_harness.Harness.Loop.Ensures.{
  HasDistinctCalls, IsFinished, AtWith, At, Post, Ensures, >>-Ensures, observe-Keeps,
}
use mini_agent_harness.Harness.Loop.Rounds.{Advanced, iteration-Ensures}
use mini_agent_harness.Harness.Loop.Entered.{repair-Ensures, check_prompt-Keeps, enter-Ensures}
use mini_agent_harness.Harness.Loop.Resumed.{IsResumable, start_step, Somewhere}

module _ {V W E : Type 0} (c : HarnessConfig) (start : ℕ) (v : Env V W E) where
  -- nothing is claimed of the states from which the loop would go on
  abbrev Anything : Unit {0} → Loop V W E → Type 0
  Anything _ s = Unit

  -- the loop does not go on: it has ended with an outcome or an error
  abbrev Nothing : Unit {0} → Loop V W E → Type 0
  Nothing _ s = ⊥

  -- what holds of a further loop at the step of an advanced state holds of it there
  Advanced-Ensures :
      (R : Unit {0} → Loop V W E → Type 0) (k : ℕ) (m : Act V W E (Unit {0}))
      → ((0 < c.max_steps → saturating_add k 1 ≤ c.max_steps)
          → Ensures c start (At c start (saturating_add k 1)) m R)
      → (continues_same_turn v.steering_mode ≡ true → Ensures c start (At c start k) m R)
      → Ensures c start (Advanced c start v k) m R
  Advanced-Ensures R k m stepped continued s (inl (at, allowed)) = stepped allowed s at
  Advanced-Ensures R k m stepped continued s (inr (at, mode)) = continued mode s at

  run_loop-Finishes : (fuel k : ℕ) → Ensures c start (At c start k) (run_loop v fuel) Anything
  unfolding run_loop pure
  run_loop-Finishes zero k s h = tt
  run_loop-Finishes (suc fuel) k s h =
      >>-Ensures c start Anything (iteration v) (run_loop v fuel) (iteration-Ensures c start v k)
        (Advanced-Ensures Anything k (run_loop v fuel)
          (λ _. run_loop-Finishes fuel (saturating_add k 1)) (λ _. run_loop-Finishes fuel k))
        s h

  -- with a step limit, and without steering in the same Turn
  module _ (limited : 0 < c.max_steps) (small : c.max_steps < u64_max)
      (stops : v.steering_mode ≡ SteeringMode.stop_at_checkpoint) where
    never_continues : continues_same_turn v.steering_mode ≡ true → ⊥
    unfolding continues_same_turn
    never_continues h =
        let e : false ≡ true = sym (ap continues_same_turn stops) ∙ h in absurd (ground (arith, e))

    run_loop-Ends :
        (fuel k : ℕ)
        → c.max_steps ≤ k + fuel
        → Ensures c start (At c start k) (run_loop v (suc fuel)) Nothing
    unfolding run_loop
    run_loop-Ends zero k enough =
        >>-Ensures c start Nothing (iteration v) (run_loop v zero) (iteration-Ensures c start v k) (
          Advanced-Ensures Nothing k (run_loop v zero)
            (λ allowed. absurd (omega (arith, allowed limited, enough, small)))
            (λ mode. absurd (never_continues mode)))
    run_loop-Ends (suc fuel) k enough =
        >>-Ensures c start Nothing (iteration v) (run_loop v (suc fuel))
          (iteration-Ensures c start v k)
          (Advanced-Ensures Nothing k (run_loop v (suc fuel))
            (λ allowed.
              run_loop-Ends fuel (saturating_add k 1)
                (omega (arith, allowed limited, enough, small)))
            (λ mode. absurd (never_continues mode)))

  -- a run does what its loop does from every step, and before the loop it may end
  run_turn-Ensures :
      (R : Unit {0} → Loop V W E → Type 0) (prompt : Text) (resume : Resume V) (fuel : ℕ)
      → IsResumable resume
      → start_step resume ≤ start
      → ((k : ℕ) → Ensures c start (At c start k) (run_loop v fuel) R)
      → Ensures c start
          (AtWith (λ (ms : List (Message V)). Unit {0}) c start 0)
          (run_turn v prompt resume fuel)
          R
  unfolding run_turn
  run_turn-Ensures R prompt resume fuel good le loop =
      >>-Ensures c start R repair _ (repair-Ensures c start v 0) (
        >>-Ensures c start R (check_prompt text) _ (check_prompt-Keeps c start v 0 text) (
          >>-Ensures c start R (observe (run_started text)) _
            (observe-Keeps c start 0 (run_started text))
            (>>-Ensures c start R (enter v text resume) (run_loop v fuel)
              (enter-Ensures c start v 0 text resume good le) anywhere)))
    where
      anywhere : Ensures c start (Somewhere c start v) (run_loop v fuel) R
      anywhere s (k, at) = loop k s at

      text : Text
      text = prompt_of prompt resume

-- Where the run ended with an outcome, it is a finished one.
abbrev pub EndsWell : {V W E A : Type 0} → HarnessConfig → ℕ → Loop V W E × Flow V E A → Type 0
EndsWell c start (s, next a) = Unit
EndsWell c start (s, done o) = IsFinished c start o s
EndsWell c start (s, fail e) = Unit

-- The run has ended, with a finished outcome or with an error.
abbrev pub HasEnded : {V W E A : Type 0} → HarnessConfig → ℕ → Loop V W E × Flow V E A → Type 0
HasEnded c start (s, next a) = ⊥
HasEnded c start (s, done o) = IsFinished c start o s
HasEnded c start (s, fail e) = Unit

module _ {V W E : Type 0} (c : HarnessConfig) (start : ℕ) where
  Post-EndsWell :
      (p : Loop V W E × Flow V E (Unit {0})) → Post c start (λ _ s. Unit {0}) p → EndsWell c start p
  Post-EndsWell (s, next a) h = tt
  Post-EndsWell (s, done o) h = h
  Post-EndsWell (s, fail e) h = tt

  Post-HasEnded :
      (p : Loop V W E × Flow V E (Unit {0})) → Post c start (λ _ s. ⊥) p → HasEnded c start p
  Post-HasEnded (s, next a) h = h
  Post-HasEnded (s, done o) h = h
  Post-HasEnded (s, fail e) h = tt

module _ {V W E : Type 0} (v : Env V W E) (prompt : Text) (resume : Resume V) (r : Run V W E)
    (control : RunControl) (log : List (ExecutionJournalEntry V))
    (execution : Option ExecutionRunContext) where
  -- the code sets the specs from the harness
  env : Env V W E
  env = record v { specs = Router.specs r.harness.tools }

  -- Where a run ends with an outcome, its messages are the session's, with complete tool groups, and
  -- its steps are within the step limit, if there is one, or are at most the step of the checkpoint
  -- that it resumed from; whatever history, journal, tools and other threads it met. The ids of the
  -- calls in each response of the model are distinct, and a batch that was pending has the calls of
  -- its intent, with distinct ids.
  pub run-EndsWell :
      (fuel : ℕ)
      → HasDistinctCalls r.harness.model
      → IsResumable resume
      → EndsWell r.harness.config
          (start_step resume)
          (run_with_control_mode_and_tool_context v prompt resume fuel r control log execution)
  unfolding run_with_control_mode_and_tool_context begin env
  run-EndsWell fuel distinct good =
      let c = r.harness.config in
      let start = start_step resume in
      let s = begin r control log execution in
      Post-EndsWell c start (run_turn env prompt resume fuel s) (
        run_turn-Ensures c start env (λ _ s. Unit {0}) prompt resume fuel good (omega arith)
          (run_loop-Finishes c start env fuel) s (tt, (distinct, refl, refl, λ some. omega arith)))

  -- With a step limit of `n`, at least 1 and below the largest `usize`, and where steering stops the
  -- Turn, a run ends within `n + 1` rounds of the loop, with such an outcome or with an error. The ids
  -- of the calls in each response of the model are distinct, and a batch that was pending has the
  -- calls of its intent, with distinct ids.
  pub run-HasEnded :
      HasDistinctCalls r.harness.model
      → IsResumable resume
      → 0 < r.harness.config.max_steps
      → r.harness.config.max_steps < u64_max
      → v.steering_mode ≡ SteeringMode.stop_at_checkpoint
      → HasEnded r.harness.config (start_step resume) (
          run_with_control_mode_and_tool_context v prompt resume
            (suc r.harness.config.max_steps)
            r
            control
            log
            execution)
  unfolding run_with_control_mode_and_tool_context begin env
  run-HasEnded distinct good limited small stops =
      let c = r.harness.config in
      let start = start_step resume in
      let s = begin r control log execution in
      Post-HasEnded c start (run_turn env prompt resume (suc c.max_steps) s) (
        run_turn-Ensures c start env (λ _ s. ⊥) prompt resume (suc c.max_steps) good (omega arith)
          (λ k. run_loop-Ends c start env limited small stops c.max_steps k (omega arith)) s
          (tt, (distinct, refl, refl, λ some. omega arith)))
