-- ===== src/Harness/Loop/Ensures.antt =====
-- crates/mini-agent-core/src/harness.rs: what an action of a run ensures, from what it requires.
use mini_agent_harness.Prelude.{
  ℕ, ◌<◌, ◌≤◌, ◌≡◌, refl, ◌∙◌, max, Bool, true, false, Option, none, some, List, Distinct,
  if◌then◌else◌,
}
use mini_agent_harness.Protocol.{Message, ModelResponse, Event, StopReason}
use mini_agent_harness.Execution.{
  ExecutionJournalEntry, ExecutionRunContext, Appended, written, refused, append_if_present,
}
use mini_agent_harness.Session.Groups.{call_ids}
use mini_agent_harness.Session.Settled.{IsSettled}
use mini_agent_harness.Harness.Config.{
  Result, ok, err, Harness, HarnessConfig, HarnessError, Model, RunOutcome, ModelRequest,
}
use mini_agent_harness.Harness.Compact.{Run}
use mini_agent_harness.Harness.Loop.State.{
  Env, Loop, Flow, next, done, fail, Act, after, pure, observe, on_run, settle_run, append_journal,
  settle_journal, journal_with, journal_checkpoint, finish, interfere, ◌>>=◌, ◌>>◌,
}

-- The ids of the calls in each response of the model are distinct.
abbrev pub HasDistinctCalls : {V W E : Type 0} → Model V W E → Type 0
HasDistinctCalls {V} {W} provider =
    (request : ModelRequest V) (w : W) (response : ModelResponse V)
    → (provider request w).1 ≡ ok response
    → Distinct (call_ids response.tool_calls)

-- With a step limit, a step number is at most the limit, or the number that the run began with.
abbrev pub IsBelow : HarnessConfig → ℕ → ℕ → Type 0
IsBelow c start k = 0 < c.max_steps → k ≤ max c.max_steps start

-- A finished run's messages are the session's, their tool groups are complete, and its step count
-- is below the limit.
abbrev pub IsFinished : {V W E : Type 0} → HarnessConfig → ℕ → RunOutcome V → Loop V W E → Type 0
IsFinished c start o s =
    IsSettled o.messages × (o.messages ≡ s.run.harness.session.messages) × IsBelow c start o.steps

-- between two actions: a history with the property (complete tool groups), the configuration as it was, and the step
abbrev pub AtWith :
    {V W E : Type 0} → (List (Message V) → Type 0) → HarnessConfig → ℕ → ℕ → Loop V W E → Type 0
AtWith K c start k s =
    K s.run.harness.session.messages
    × (HasDistinctCalls s.run.harness.model
        × (s.run.harness.config ≡ c)
        × (s.step ≡ k)
        × IsBelow c start k)

abbrev pub At : {V W E : Type 0} → HarnessConfig → ℕ → ℕ → Loop V W E → Type 0
At = AtWith IsSettled

module _ {V W E : Type 0} (c : HarnessConfig) (start : ℕ) where
  abbrev pub Post : {A : Type 0} → (A → Loop V W E → Type 0) → Loop V W E × Flow V E A → Type 0
  Post Q (s, next a) = Q a s
  Post Q (s, done o) = IsFinished c start o s
  Post Q (s, fail e) = Unit

  abbrev pub Ensures :
      {A : Type 0} → (Loop V W E → Type 0) → Act V W E A → (A → Loop V W E → Type 0) → Type 0
  Ensures P m Q = (s : Loop V W E) → P s → Post Q (m s)

  after-Post :
      {A B : Type 0} (Q : A → Loop V W E → Type 0) (f : A → Act V W E B)
      (R : B → Loop V W E → Type 0) (p : Loop V W E × Flow V E A)
      → Post Q p
      → ((a : A) → Ensures (Q a) (f a) R)
      → Post R (after p f)
  unfolding after
  after-Post Q f R (s, next a) h g = g a s h
  after-Post Q f R (s, done o) h g = h
  after-Post Q f R (s, fail e) h g = tt

  -- what is ensured may be weakened
  pub Post-weaken :
      {A : Type 0} (Q R : A → Loop V W E → Type 0) (p : Loop V W E × Flow V E A)
      → ((a : A) (s : Loop V W E) → Q a s → R a s)
      → Post Q p
      → Post R p
  Post-weaken Q R (s, next a) f h = f a s h
  Post-weaken Q R (s, done o) f h = h
  Post-weaken Q R (s, fail e) f h = tt

  pub >>=-Ensures :
      {A B : Type 0} {P : Loop V W E → Type 0} {Q : A → Loop V W E → Type 0}
      (R : B → Loop V W E → Type 0) (m : Act V W E A) (f : A → Act V W E B)
      → Ensures P m Q
      → ((a : A) → Ensures (Q a) (f a) R)
      → Ensures P (m >>= f) R
  unfolding ◌>>=◌
  >>=-Ensures {Q = Q} R m f hm hf s p = after-Post Q f R (m s) (hm s p) hf

  pub >>-Ensures :
      {B : Type 0} {P Q : Loop V W E → Type 0} (R : B → Loop V W E → Type 0)
      (m : Act V W E (Unit {0})) (k : Act V W E B)
      → Ensures P m (λ _. Q)
      → Ensures Q k R
      → Ensures P (m >> k) R
  unfolding ◌>>◌
  >>-Ensures R m k hm hk = >>=-Ensures R m (λ _. k) hm (λ _. hk)

  -- an action that keeps the invariant, and one that may go on with another step
  abbrev pub Keeps : {A : Type 0} → ℕ → Act V W E A → Type 0
  Keeps k m = Ensures (At c start k) m (λ _. At c start k)

  pub pure-Keeps : {A : Type 0} (k : ℕ) (a : A) → Keeps k (pure a)
  unfolding pure
  pure-Keeps k a s h = h

  pub observe-Keeps : (k : ℕ) (e : Event V) → Keeps k (observe e)
  unfolding observe
  observe-Keeps k e s h = h

  pub interfere-Keeps : (v : Env V W E) (k : ℕ) → Keeps k (interfere v)
  unfolding interfere
  interfere-Keeps v k s h = h

  -- The run's outcome has the messages of the state.
  pub finish-Post :
      {A : Type 0} (Q : A → Loop V W E → Type 0) (steps : ℕ) (reason : StopReason) (s : Loop V W E)
      → IsBelow c start steps
      → IsSettled s.run.harness.session.messages
      → Post Q (finish steps reason s)
  unfolding finish
  finish-Post Q steps reason s below settled = (settled, refl, below)

  module _ (K : List (Message V) → Type 0) where
    settle_journal-KeepsWith :
        (k : ℕ) (s : Loop V W E) (r : Appended V)
        → AtWith K c start k s
        → Post (λ _. AtWith K c start k) (settle_journal s r)
    unfolding settle_journal
    settle_journal-KeepsWith k s (written log) h = h
    settle_journal-KeepsWith k s (refused e) h = tt

    pub journal_with-KeepsWith :
        (v : Env V W E) (k : ℕ) (entry : ExecutionRunContext → Loop V W E → ExecutionJournalEntry V)
        → Ensures (AtWith K c start k) (journal_with v entry) (λ _. AtWith K c start k)
    unfolding journal_with append_journal
    journal_with-KeepsWith v k entry s h = go s.execution
      where
        go :
            (x : Option ExecutionRunContext)
            → let p : Loop V W E × Flow V E (Unit {0}) = elim x [
              | none ↦ (s, next tt)
              | some execution ↦ append_journal v (entry execution s) s
            ] in
              Post (λ _. AtWith K c start k) p
        go none = h
        go (some x) =
            settle_journal-KeepsWith k s (append_if_present v.sink (entry x s) s.journal) h

  pub journal_checkpoint-Keeps : (v : Env V W E) (k n : ℕ) → Keeps k (journal_checkpoint v n)
  unfolding journal_checkpoint
  journal_checkpoint-Keeps v k n = journal_with-KeepsWith IsSettled v k _

  module _ (K : List (Message V) → Type 0) where
    -- the harness after a step has the same configuration and model, and the property if it had it
    abbrev pub IsStable : Harness V W E → Harness V W E → Type 0
    IsStable h h' =
        (h'.config ≡ h.config)
        × (h'.model ≡ h.model)
        × (K h.session.messages → K h'.session.messages)

    -- what a step of the harness leaves where it does not fail
    abbrev pub Stays : {A : Type 0} → Harness V W E → Run V W E × Result (HarnessError E) A → Type 0
    Stays h (r, ok a) = IsStable h r.harness
    Stays h (r, err e) = Unit

    pub on_run-KeepsWith :
        {A : Type 0} (k : ℕ) (f : Run V W E → Run V W E × Result (HarnessError E) A)
        → ((r : Run V W E) → Stays r.harness (f r))
        → Ensures (AtWith K c start k) (on_run f) (λ _. AtWith K c start k)
    unfolding on_run
    on_run-KeepsWith {A} k f stays s h = go (f s.run) (stays s.run)
      where
        go :
            (p : Run V W E × Result (HarnessError E) A)
            → Stays s.run.harness p
            → Post (λ _. AtWith K c start k) (settle_run s p)
        go (r, ok a) (config, same, kept) =
            let (settled, (distinct, fixed, step, below)) = h in
            unfold settle_run in (kept settled, (rw same distinct, config ∙ fixed, step, below))
        go (r, err e) x = unfold settle_run in tt

  pub on_run-Keeps :
      {A : Type 0} (k : ℕ) (f : Run V W E → Run V W E × Result (HarnessError E) A)
      → ((r : Run V W E) → Stays IsSettled r.harness (f r))
      → Keeps k (on_run f)
  on_run-Keeps = on_run-KeepsWith IsSettled

  pub >>=-Keeps :
      {A B : Type 0} (k : ℕ) (m : Act V W E A) (f : A → Act V W E B)
      → Keeps k m
      → ((a : A) → Keeps k (f a))
      → Keeps k (m >>= f)
  >>=-Keeps k m f hm hf = >>=-Ensures (λ _. At c start k) m f hm hf

  pub >>-Keeps :
      {B : Type 0} (k : ℕ) (m : Act V W E (Unit {0})) (n : Act V W E B)
      → Keeps k m
      → Keeps k n
      → Keeps k (m >> n)
  >>-Keeps k m n hm hn = >>-Ensures (λ _. At c start k) m n hm hn

  pub if-Ensures :
      {A : Type 0} {P : Loop V W E → Type 0} (Q : A → Loop V W E → Type 0) (b : Bool)
      (m n : Act V W E A)
      → Ensures P m Q
      → Ensures P n Q
      → Ensures P (if b then m else n) Q
  if-Ensures Q true m n hm hn = hm
  if-Ensures Q false m n hm hn = hn

  pub if-Keeps :
      {A : Type 0} (k : ℕ) (b : Bool) (m n : Act V W E A)
      → Keeps k m
      → Keeps k n
      → Keeps k (if b then m else n)
  if-Keeps k = if-Ensures (λ _. At c start k)
