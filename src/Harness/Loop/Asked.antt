-- ===== src/Harness/Loop/Asked.antt =====
-- crates/mini-agent-core/src/harness.rs: what asking the model leaves of the invariant of a run.
use mathlib.Core.Path.{subst}
use mini_agent_harness.Prelude.{
  ℕ, zero, suc, ◌+◌, ◌≡◌, refl, ap, true, Option, none, some, List, Distinct, arith,
}
use mini_agent_harness.Protocol.{Message, ModelResponse, StopReason}
use mini_agent_harness.Session.Groups.{call_ids}
use mini_agent_harness.Harness.Config.{
  Result, ok, err, Harness, HarnessConfig, HarnessError, ForkCompactionMethod, ModelRequest,
}
use mini_agent_harness.Harness.Compact.{Run}
use mini_agent_harness.Session.Settled.{IsSettled}
use mini_agent_harness.Harness.Shrunk.{CompactedWith, compact_context_to-Carries}
use mini_agent_harness.Compaction.Carried.{Carried, IsSettled-Carried}
use mini_agent_harness.Harness.Stream.{ModelEventForwarder}
use mini_agent_harness.Harness.Loop.State.{
  Env, Loop, Act, pure, modify, on_run, journal_checkpoint, finish, interfere, ◌>>=◌,
}
use mini_agent_harness.Harness.Loop.Ask.{
  Answer, reduced, compact_context_with_reduction_target, read_cancel, set_waker, poll_cancel,
  await_model, show, answer_of, answered, abandoned, settle_call, polls_of, call_model, fail_model,
  may_compact, read_step, ask_again, settle_response, ask_model, model_started_event, request_of,
}
use mini_agent_harness.Harness.Loop.Ensures.{
  AtWith, At, Ensures, Keeps, Stays, >>=-Ensures, >>-Ensures, >>=-Keeps, >>-Keeps, if-Ensures,
  if-Keeps, pure-Keeps, observe-Keeps, interfere-Keeps, finish-Post, journal_checkpoint-Keeps,
  on_run-KeepsWith,
}

-- an answer whose calls have distinct ids
abbrev pub IsDistinctAnswer : {V : Type 0} → Answer V → Type 0
IsDistinctAnswer a = Distinct (call_ids a.response.tool_calls)

abbrev IsDistinctResult : {V E : Type 0} → Result E (Answer V) → Type 0
IsDistinctResult (ok a) = IsDistinctAnswer a
IsDistinctResult (err e) = Unit

module _ {V W E : Type 0} (c : HarnessConfig) (start : ℕ) (v : Env V W E) where
  module _ (K : List (Message V) → Type 0) (carried : Carried v.json v.specs K) where
    reduced-Stays :
        (h : Harness V W E) (before : ℕ)
        (p : Run V W E × Result (HarnessError E) ForkCompactionMethod)
        → CompactedWith v.json v.specs K h p
        → Stays c start K h (reduced v before p)
    unfolding reduced
    reduced-Stays h before (r, err e) x = tt
    reduced-Stays h before (r, ok ForkCompactionMethod.exact) x =
        (ap (λ (x : Harness V W E). x.config) x, ap (λ (x : Harness V W E). x.model) x, λ s. rw x s)
    reduced-Stays h before (r, ok ForkCompactionMethod.model_summary) (same, (bytes, kept)) =
        (ap (λ (x : Harness V W E). x.config) same, ap (λ (x : Harness V W E). x.model) same, kept)
    reduced-Stays h before (r, ok ForkCompactionMethod.mechanical) (same, (bytes, kept)) =
        (ap (λ (x : Harness V W E). x.config) same, ap (λ (x : Harness V W E). x.model) same, kept)

    pub compact_with_target-KeepsWith :
        (k : ℕ)
        → Ensures c start
            (AtWith K c start k)
            (on_run (compact_context_with_reduction_target v))
            (λ _. AtWith K c start k)
    unfolding compact_context_with_reduction_target
    compact_with_target-KeepsWith k = on_run-KeepsWith c start K k _ λ r.
        reduced-Stays r.harness _ _
          (compact_context_to-Carries v.json v.specs K carried v.prompt _ true r)

  -- the step that is read is the state's
  abbrev pub Reads : ℕ → ℕ → Loop V W E → Type 0
  Reads k n s = At c start k s × (n ≡ k)

  pub read_step-Ensures : (k : ℕ) → Ensures c start (At c start k) read_step (Reads k)
  unfolding read_step pure
  read_step-Ensures k s h = (h, h.1.2)

  -- an action with the step that is read
  pub with_step :
      {A : Type 0} (Q : A → Loop V W E → Type 0) (k : ℕ) (f : ℕ → Act V W E A)
      → ((n : ℕ) → Ensures c start (Reads k n) (f n) Q)
      → Ensures c start (At c start k) (read_step >>= f) Q
  with_step Q k f hyp = >>=-Ensures c start Q read_step f (read_step-Ensures k) hyp

  pub finish_here :
      {A : Type 0} (Q : A → Loop V W E → Type 0) (k n : ℕ) (reason : StopReason)
      → Ensures c start (Reads k n) (finish n reason) Q
  finish_here Q k n reason s ((settled, (d, f, step, below)), e) =
      finish-Post c start Q n reason s (rw e below) settled

  poll_cancel-Keeps : (k : ℕ) → Keeps c start k (poll_cancel v)
  unfolding poll_cancel
  poll_cancel-Keeps k = >>-Keeps c start k (interfere v) _ (interfere-Keeps c start v k) (
      >>=-Keeps c start k read_cancel _ reads λ first.
        if-Keeps c start k first _ _ (pure-Keeps c start k true) (
          >>-Keeps c start k (interfere v) _ (interfere-Keeps c start v k)
            (>>-Keeps c start k set_waker _ sets reads)))
    where
      reads : Keeps c start k (read_cancel {V = V} {W = W} {E = E})
      reads s h = unfold read_cancel pure in h

      sets : Keeps c start k (set_waker {V = V} {W = W} {E = E})
      sets s h = unfold set_waker modify in h

  await_model-Keeps : (k polled left : ℕ) → Keeps c start k (await_model v polled left)
  unfolding await_model
  await_model-Keeps k polled zero =
      >>=-Keeps c start k (poll_cancel v) _ (poll_cancel-Keeps k)
        λ cancelled. pure-Keeps c start k _
  await_model-Keeps k polled (suc left) =
      >>=-Keeps c start k (poll_cancel v) _ (poll_cancel-Keeps k) λ cancelled.
        if-Keeps c start k cancelled _ _ (pure-Keeps c start k _)
          (await_model-Keeps k (polled + 1) left)

  abbrev Called : ℕ → Result E (Answer V) → Loop V W E → Type 0
  Called k r s = At c start k s × IsDistinctResult r

  answered-Ensures : (k : ℕ) → Ensures c start (At c start k) (answered v) (Called k)
  unfolding answered show
  answered-Ensures k s h = (h, go _ (s.run.harness.model request s.run.world).1 refl)
    where
      request : ModelRequest V
      request = request_of v s.run.harness

      go :
          (f : ModelEventForwarder V) (r : Result E (ModelResponse V))
          → (s.run.harness.model request s.run.world).1 ≡ r
          → IsDistinctResult (answer_of v f s r)
      go f (ok response) e = unfold answer_of in h.1.0 request s.run.world response e
      go f (err x) e = unfold answer_of in tt

  abandoned-Ensures :
      {A : Type 0} (Q : A → Loop V W E → Type 0) (k polled : ℕ)
      → Ensures c start (At c start k) (abandoned v polled) Q
  unfolding abandoned show
  abandoned-Ensures Q k polled s (settled, (d, f, step, below)) =
      finish-Post c start Q _ StopReason.cancelled _ (rw step below) settled

  settle_call-Ensures :
      (k : ℕ) (polled : Option ℕ) → Ensures c start (At c start k) (settle_call v polled) (Called k)
  unfolding settle_call
  settle_call-Ensures k none = answered-Ensures k
  settle_call-Ensures k (some polled) =
      >>-Ensures c start (Called k) (interfere v) _ (interfere-Keeps c start v k)
        (abandoned-Ensures (Called k) k polled)

  call_model-Ensures : (k : ℕ) → Ensures c start (At c start k) (call_model v) (Called k)
  unfolding call_model
  call_model-Ensures k =
      >>-Ensures c start (Called k) _ _
        (λ s h. observe-Keeps c start k (model_started_event v s) s h)
        (>>=-Ensures c start (Called k) (polls_of v) _ reads λ polls.
          >>=-Ensures c start (Called k) (await_model v 0 polls) _ (await_model-Keeps k 0 polls)
            (settle_call-Ensures k))
    where
      reads : Keeps c start k (polls_of v)
      reads s h = unfold polls_of pure in h

  abbrev pub Answers : ℕ → Answer V → Loop V W E → Type 0
  Answers k a s = At c start k s × IsDistinctAnswer a

  fail_model-Ensures :
      {A : Type 0} (P : Loop V W E → Type 0) (Q : A → Loop V W E → Type 0) (e : E)
      → Ensures c start P (fail_model e) Q
  unfolding fail_model
  fail_model-Ensures P Q e s h = tt

  ask_again-Ensures :
      (k : ℕ) (again : Act V W E (Answer V)) (e : E)
      → Ensures c start (At c start k) again (Answers k)
      → Ensures c start (At c start k) (ask_again v again e) (Answers k)
  unfolding ask_again
  ask_again-Ensures k again e hyp =
      >>=-Ensures c start (Answers k) _ _
        (compact_with_target-KeepsWith IsSettled (IsSettled-Carried v.json v.specs) k)
        λ smaller.
          if-Ensures c start (Answers k) smaller _ _
            (with_step (Answers k) k _ λ n s h.
              >>-Ensures c start (Answers k) (journal_checkpoint v n) again
                (journal_checkpoint-Keeps c start v k n) hyp s h.0)
            (fail_model-Ensures (At c start k) (Answers k) e)

  settle_response-Ensures :
      (k : ℕ) (again : Option (Act V W E (Answer V))) (r : Result E (Answer V))
      → ((m : Act V W E (Answer V)) → again ≡ some m → Ensures c start (At c start k) m (Answers k))
      → Ensures c start (Called k r) (settle_response v again r) (Answers k)
  unfolding settle_response pure
  settle_response-Ensures k again (ok answer) hyp s h = h
  settle_response-Ensures k none (err e) hyp s h =
      fail_model-Ensures (At c start k) (Answers k) e s h.0
  settle_response-Ensures k (some again) (err e) hyp s h =
      if-Ensures c start (Answers k) (may_compact v e s) _ _
        (ask_again-Ensures k again e (hyp again refl))
        (fail_model-Ensures (At c start k) (Answers k) e) s h.0

  -- An answer of the model comes with distinct call ids, and with the invariant.
  pub ask_model-Ensures :
      (k retries : ℕ) → Ensures c start (At c start k) (ask_model v retries) (Answers k)
  unfolding ask_model
  ask_model-Ensures k zero =
      >>=-Ensures c start (Answers k) (call_model v) _ (call_model-Ensures k)
        λ r. settle_response-Ensures k none r λ m e. absurd (ground (arith, e))
  ask_model-Ensures k (suc retries) =
      >>=-Ensures c start (Answers k) (call_model v) _ (call_model-Ensures k) λ r.
        settle_response-Ensures k (some (ask_model v retries)) r
          λ m e. subst (λ o. Again k o) e (ask_model-Ensures k retries)
    where
      Again : ℕ → Option (Act V W E (Answer V)) → Type 0
      Again k none = Unit
      Again k (some m) = Ensures c start (At c start k) m (Answers k)
