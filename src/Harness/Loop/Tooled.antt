-- ===== src/Harness/Loop/Tooled.antt =====
-- crates/mini-agent-core/src/harness.rs: what a round does with a response, with the invariant of a run.
use mini_agent_harness.Prelude.{
  ℕ, ◌≡◌, refl, Text, Bool, true, false, Option, none, some, List, [], ◌∷◌, Distinct, is_nil,
  length, nil_of_is_nil, leb, saturating_add, arith, if◌then◌else◌,
}
use mini_agent_harness.Protocol.{
  Message, ModelResponse, ToolCall, LimitExceeded, LimitKind, StopReason, assistant, context,
}
use mini_agent_harness.Session.State
use mini_agent_harness.Session.Groups.{call_ids}
use mini_agent_harness.Session.Settled.{IsSettled}
use mini_agent_harness.Session.Complete.{append-IsSettled}
use mini_agent_harness.Compaction.Opened.{IsOpened}
use mini_agent_harness.Batch.Monad
use mini_agent_harness.Batch.Monad.{Options, BatchState}
use mini_agent_harness.Batch.Execute.{execute_tool_batch}
use mini_agent_harness.Batch.Settles.{execute_tool_batch-IsSettled}
use mini_agent_harness.Harness.Config.{HarnessConfig}
use mini_agent_harness.Harness.History
use mini_agent_harness.Harness.History.{check_limit}
use mini_agent_harness.Compaction.Carried.{IsOpened-Carried}
use mini_agent_harness.Harness.Loop.State.{
  Env, Loop, Act, pure, modify, push_message, enter_batch, leave_batch, batch_options, ◌>>=◌,
}
use mini_agent_harness.Harness.Loop.Turn.{
  compact_if, complete, settle_batch, turn_id_of, run_batch, count_duplicates, warn_of_loop,
  loop_warning_text, batch_started, batch_settled, finish_round, journal_settled, run_tools, act_on,
}
use mini_agent_harness.Harness.Loop.Steer.{ControlAction, proceed, continue_turn, control_action}
use mini_agent_harness.Harness.Loop.Ensures.{
  AtWith, At, Post, Ensures, Keeps, >>=-Ensures, >>-Ensures, >>-Keeps, journal_with-KeepsWith,
  journal_checkpoint-Keeps,
}
use mini_agent_harness.Harness.Loop.Asked.{compact_with_target-KeepsWith, with_step, finish_here}
use mini_agent_harness.Harness.Loop.Steered.{
  Controlled, control_action-Ensures, prepare_context-Keeps,
}

module _ {V W E : Type 0} (c : HarnessConfig) (start : ℕ) (v : Env V W E) where
  -- a history that ends in a request whose calls have distinct ids
  module _ (r x : Text) (calls : List (ToolCall V)) where
    abbrev pub OpenAt : ℕ → Loop V W E → Type 0
    OpenAt k s = AtWith (IsOpened r x calls) c start k s

    pub push_request-Ensures :
        (k : ℕ)
        → Ensures c start (At c start k) (push_message (assistant r x calls)) (λ _. OpenAt k)
    unfolding push_message modify State.push
    push_request-Ensures k s (settled, rest) =
        ((s.run.harness.session.messages, refl, settled), rest)

    pub compact_if-Ensures :
        (k : ℕ) (b : Bool) → Ensures c start (OpenAt k) (compact_if v b) (λ _. OpenAt k)
    unfolding compact_if pure
    compact_if-Ensures k false s h = h
    compact_if-Ensures k true s h =
        >>=-Ensures c start (λ _. OpenAt k) _ _
          (compact_with_target-KeepsWith c start v (IsOpened r x calls)
            (IsOpened-Carried v.json v.specs r x calls) k)
          (λ _ s h. h) s h

    pub run_batch-Ensures :
        (k : ℕ)
        → Distinct (call_ids calls)
        → Ensures c start (OpenAt k) (run_batch v calls) (λ _. At c start k)
    unfolding run_batch enter_batch
    run_batch-Ensures k distinct s ((before, e, settled), fixed) =
        go (execute_tool_batch options calls (enter_batch s)) refl
      where
        options : Options V W
        options = batch_options v (turn_id_of s.execution) s

        go :
            (p : BatchState V W × Monad.Result Unit)
            → execute_tool_batch options calls (enter_batch s) ≡ p
            → Post c start (λ _. At c start k) (settle_batch v s p)
        go (b, Monad.err e) q = unfold settle_batch in tt
        go (b, Monad.ok _) q =
            unfold settle_batch leave_batch in
            (
              execute_tool_batch-IsSettled options before r x calls (enter_batch s) b settled
                  distinct e q,
              fixed,
            )

  pub journal_settled-Keeps : (k : ℕ) → Keeps c start k (journal_settled v)
  unfolding journal_settled
  journal_settled-Keeps k =
      >>-Keeps c start k _ _ (journal_with-KeepsWith c start IsSettled v k batch_settled) (
        with_step c start v (λ _. At c start k) k _
          λ n s h. journal_checkpoint-Keeps c start v k (saturating_add n 1) s h.0)

  count_duplicates-Keeps :
      (k : ℕ) (executed : List (Text × V × Text)) → Keeps c start k (count_duplicates v executed)
  unfolding count_duplicates modify
  count_duplicates-Keeps k executed s h = ground (arith, h)

  push_checked-At :
      (k : ℕ) (e : Option LimitExceeded) (m : Message V) (s : Loop V W E)
      → IsSettled (m ∷ [])
      → At c start k s
      → At c start k
          (record s { run = record s.run { harness = (History.push_checked e m s.run.harness).0 } })
  unfolding History.push_checked State.push
  push_checked-At k (some e) m s alone h = h
  push_checked-At k none m s alone (settled, fixed) =
      (append-IsSettled s.run.harness.session.messages (m ∷ []) settled alone, fixed)

  warn_of_loop-Keeps : (k : ℕ) → Keeps {V = V} {W = W} {E = E} c start k warn_of_loop
  unfolding warn_of_loop modify History.append_context
  warn_of_loop-Keeps k s h =
      either (leb 2 s.duplicates) _ s
        (push_checked-At k
          (check_limit LimitKind.context_item_bytes s.run.harness.config.max_context_item_bytes
            (length loop_warning_text))
          (context loop_warning_text) s refl h)
        h
    where
      either :
          (b : Bool) (t u : Loop V W E)
          → At c start k t
          → At c start k u
          → At c start k (if b then t else u)
      either true t u p q = p
      either false t u p q = q

  finish_round-Keeps :
      (k : ℕ) (action : ControlAction)
      → Ensures c start (Controlled c start v k action) (finish_round v action) (λ _. At c start k)
  unfolding finish_round pure
  finish_round-Keeps k proceed s h = prepare_context-Keeps c start v k s h
  finish_round-Keeps k continue_turn s h = h.0

  complete-Keeps :
      (k : ℕ) (action : ControlAction)
      → Ensures c start (Controlled c start v k action) (complete v action) (λ _. At c start k)
  unfolding complete pure
  complete-Keeps k proceed s h =
      with_step c start v (λ _. At c start k) k _
        (λ n. finish_here c start v (λ _. At c start k) k n StopReason.completed) s h
  complete-Keeps k continue_turn s h = h.0

  run_tools-Ensures :
      (k : ℕ) (r : ModelResponse V)
      → Distinct (call_ids r.tool_calls)
      → Ensures c start
          (OpenAt r.reasoning r.text r.tool_calls k)
          (run_tools v r)
          (λ _. At c start k)
  unfolding run_tools
  run_tools-Ensures k r distinct =
      >>-Ensures c start (λ _. At c start k) _ _
        (journal_with-KeepsWith c start (IsOpened r.reasoning r.text r.tool_calls) v k
          (batch_started r))
        (>>=-Ensures c start (λ _. At c start k) _ _
          (run_batch-Ensures r.reasoning r.text r.tool_calls k distinct)
          λ executed. >>-Keeps c start k _ _ (journal_settled-Keeps k) (
            >>-Keeps c start k _ _ (count_duplicates-Keeps k executed) (
              >>-Keeps c start k _ _ (warn_of_loop-Keeps k) (
                >>=-Ensures c start (λ _. At c start k) _ _ (control_action-Ensures c start v k)
                  (finish_round-Keeps k)))))

  pub act_on-Ensures :
      (k : ℕ) (r : ModelResponse V)
      → Distinct (call_ids r.tool_calls)
      → Ensures c start (OpenAt r.reasoning r.text r.tool_calls k) (act_on v r) (λ _. At c start k)
  unfolding act_on
  act_on-Ensures k r distinct s ((before, e, settled), fixed) = go (is_nil r.tool_calls) refl
    where
      closed : is_nil r.tool_calls ≡ true → IsSettled s.run.harness.session.messages
      closed nil = rw (e, nil_of_is_nil r.tool_calls nil) (append-IsSettled before _ settled refl)

      go :
          (b : Bool)
          → is_nil r.tool_calls ≡ b
          → let m : Act V W E Unit =
              (if b then (control_action v >>= λ action. complete v action) else run_tools v r) in
            Post c start (λ _. At c start k) (m s)
      go true nil =
          >>=-Ensures c start (λ _. At c start k) (control_action v) (complete v)
            (control_action-Ensures c start v k) (complete-Keeps k) s (closed nil, fixed)
      go false filled = run_tools-Ensures k r distinct s ((before, e, settled), fixed)
