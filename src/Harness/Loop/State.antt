-- ===== src/Harness/Loop/State.antt =====
-- crates/mini-agent-core/src/harness.rs: the variables of a run, and actions on them that may end it
-- with an outcome or an error. Other threads reach the run control at any time: `others n` is what
-- they do to it before the run touches it for the `n`th time.
use mini_agent_harness.Prelude.{
  ℕ, zero, suc, ◌+◌, Text, Bool, Option, none, some, List, [], ◌∷◌, map,
}
use mini_agent_harness.Protocol.{
  Json, Event, Message, ToolSpec, ToolExecutionContext, ModelEvent, ModelSelection,
  ModelContextSnapshot, ContextInjectionRecord, StopReason, context_injected, run_finished,
}
use mini_agent_harness.Execution.{
  ExecutionJournalEntry, ExecutionPhase, ExecutionRunContext, Sink, Appended, written, refused,
  append_if_present, checkpoint,
}
use mini_agent_harness.Control.Run.{RunControl, SteeringMode}
use mini_agent_harness.Session.State
use mini_agent_harness.Batch.Monad.{Options, BatchState}
use mini_agent_harness.Harness.Config.{Result, ok, err, HarnessError, ModelRequest, RunOutcome}
use mini_agent_harness.Harness.Compact.{Run}
use mini_agent_harness.Harness.Compact

-- What the provider tells beside its answer. A request is polled `pending_polls` times before the
-- poll that finds the answer; `stream` is what it emits until then, and `dropped n` the world and
-- the emitted events where the request is dropped after `n` polls.
pub record Provider (V W E : Type 0) : Type 0 where
  pub context_snapshot : Option ModelSelection → Option ModelContextSnapshot
  pub is_context_window_error : E → Bool
  pub pending_polls : ModelRequest V → W → ℕ
  pub stream : ModelRequest V → W → List (ℕ × ModelEvent)
  pub response_ms : ModelRequest V → W → ℕ
  pub dropped : ModelRequest V → W → ℕ → W × List (ℕ × ModelEvent)

-- What a run does not change. `encode_input` and `encode_specs` are `serde_json::to_vec`,
-- `same_value` is the equality of `serde_json::Value`, and `prompt` is the text of
-- builtin/prompts/system/compaction.md.
pub record Env (V W E : Type 0) : Type 0 where
  pub json : Json V
  pub encode_input : Text → List (Message V) → List (ToolSpec V) → List ℕ
  pub encode_specs : List (ToolSpec V) → List ℕ
  pub same_value : V → V → Bool
  pub provider : Provider V W E
  pub prompt : Text
  pub sink : Option (Sink V)
  pub others : ℕ → RunControl → RunControl
  pub steering_mode : SteeringMode
  pub tool_context : Option ToolExecutionContext
  pub specs : List (ToolSpec V)

pub record Loop (V W E : Type 0) : Type 0 where
  pub run : Run V W E
  pub control : RunControl
  pub ticks : ℕ
  pub journal : List (ExecutionJournalEntry V)
  pub execution : Option ExecutionRunContext
  pub final_text : Text
  pub step : ℕ
  pub duplicates : ℕ
  pub last_tool_batch : Option (List (Text × V × Text))

-- how an action ends: the run goes on, or has its outcome, or fails
pub data Flow (V E A : Type 0) : Type 0 where
  next : A → Flow V E A
  done : RunOutcome V → Flow V E A
  fail : HarnessError E → Flow V E A

abbrev pub Act : Type 0 → Type 0 → Type 0 → Type 0 → Type 0
Act V W E A = Loop V W E → Loop V W E × Flow V E A

-- the run control after `n` rounds of the other threads
unfoldable pub after_others : (ℕ → RunControl → RunControl) → ℕ → ℕ → RunControl → RunControl
after_others others ticks zero c = c
after_others others ticks (suc n) c = after_others others (ticks + 1) n (others ticks c)

module _ {V W E : Type 0} where
  unfoldable pub after :
      {A B : Type 0} → Loop V W E × Flow V E A → (A → Act V W E B) → Loop V W E × Flow V E B
  after (s, next a) f = f a s
  after (s, done o) f = (s, done o)
  after (s, fail e) f = (s, fail e)

  infixl 5 ◌>>=◌ ◌>>◌
  unfoldable pub ◌>>=◌ : {A B : Type 0} → Act V W E A → (A → Act V W E B) → Act V W E B
  unfolding after
  ◌>>=◌ m f s = after (m s) f

  unfoldable pub ◌>>◌ : {B : Type 0} → Act V W E (Unit {0}) → Act V W E B → Act V W E B
  unfolding ◌>>=◌
  ◌>>◌ m k = m >>= λ _. k

  unfoldable pub pure : {A : Type 0} → A → Act V W E A
  pure a s = (s, next a)

  unfoldable pub modify : (Loop V W E → Loop V W E) → Act V W E (Unit {0})
  modify f s = (f s, next tt)

  unfoldable pub observe : Event V → Act V W E (Unit {0})
  unfolding modify Compact.observe
  observe event = modify (λ s. record s { run = Compact.observe event s.run })

  unfoldable pub settle_run :
      {A : Type 0} → Loop V W E → Run V W E × Result (HarnessError E) A → Loop V W E × Flow V E A
  settle_run s (r, ok a) = (record s { run = r }, next a)
  settle_run s (r, err e) = (record s { run = r }, fail e)

  -- a step of the harness that may fail, with `?`
  unfoldable pub on_run :
      {A : Type 0} → (Run V W E → Run V W E × Result (HarnessError E) A) → Act V W E A
  unfolding settle_run
  on_run f s = settle_run s (f s.run)

  unfoldable pub push_message : Message V → Act V W E (Unit {0})
  unfolding modify
  push_message m = modify (λ s. record s {
    run = record s.run {
      harness = record s.run.harness { session = State.push m s.run.harness.session };
    };
  })

  unfoldable pub settle_journal : Loop V W E → Appended V → Loop V W E × Flow V E (Unit {0})
  settle_journal s (written log) = (record s { journal = log }, next tt)
  settle_journal s (refused error) = (s, fail (HarnessError.execution_journal error))

  unfoldable pub append_journal : Env V W E → ExecutionJournalEntry V → Act V W E (Unit {0})
  unfolding settle_journal
  append_journal v entry s = settle_journal s (append_if_present v.sink entry s.journal)

  -- `if let Some(execution) = execution_context.as_ref() { append_if_present(..)? }`
  unfoldable pub journal_with :
      Env V W E
      → (ExecutionRunContext → Loop V W E → ExecutionJournalEntry V)
      → Act V W E (Unit {0})
  journal_with v entry s = elim s.execution [
    | none ↦ (s, next tt)
    | some execution ↦ append_journal v (entry execution s) s
  ]

  -- the checkpoint before the model step of that number
  unfoldable pub checkpoint_of : ℕ → ExecutionRunContext → Loop V W E → ExecutionJournalEntry V
  checkpoint_of next_model_step execution s = checkpoint (record {
    turn_id = execution.turn_id;
    input = execution.input;
    messages = s.run.harness.session.messages;
    next_model_step = next_model_step;
    final_text = s.final_text;
    phase = ExecutionPhase.model_request;
    applied_steer_request_ids = execution.applied_steer_request_ids;
  })

  unfoldable pub journal_checkpoint : Env V W E → ℕ → Act V W E (Unit {0})
  journal_checkpoint v next_model_step = journal_with v (checkpoint_of next_model_step)

  -- `finish(..)` with the run's text, which is taken, and its messages
  unfoldable pub finish : {A : Type 0} → ℕ → StopReason → Act V W E A
  unfolding Compact.observe
  finish steps reason s = (
    record s { run = Compact.observe (run_finished reason steps) s.run; final_text = [] },
    done (record {
      final_text = s.final_text;
      messages = s.run.harness.session.messages;
      steps = steps;
      stop_reason = reason;
    }),
  )

  -- what other threads do before the run control is touched again
  unfoldable pub interfere : Env V W E → Act V W E (Unit {0})
  unfolding modify
  interfere v = modify (λ s. record s { control = v.others s.ticks s.control; ticks = s.ticks + 1 })

  unfoldable pub announce_list : List (Text × ContextInjectionRecord) → Act V W E (Unit {0})
  announce_list [] = pure tt
  announce_list (p ∷ ps) = do
    modify (λ s. record s {
      run = record s.run { harness = record s.run.harness { pending_context_injections = [] } };
    })
    observe (context_injected (map (λ (q : Text × ContextInjectionRecord). q.1) (p ∷ ps)))

  -- `std::mem::take(&mut self.pending_context_injections)`
  unfoldable pub announce_injections : Act V W E (Unit {0})
  announce_injections s = announce_list s.run.harness.pending_context_injections s

  -- the run as a tool batch sees it: it reads the cancel flag only, while other threads go on
  unfoldable pub enter_batch : Loop V W E → BatchState V W
  enter_batch s = record {
    session = s.run.harness.session;
    events = s.run.events;
    journal = s.journal;
    world = s.run.world;
    reads = 0;
    executed = [];
  }

  unfoldable pub leave_batch : Env V W E → Loop V W E → BatchState V W → Loop V W E
  leave_batch v s b = record s {
    run = record {
      harness = record s.run.harness { session = b.session };
      events = b.events;
      world = b.world;
    };
    journal = b.journal;
    control = after_others v.others s.ticks b.reads s.control;
    ticks = s.ticks + b.reads;
  }

  unfoldable pub batch_options : Env V W E → Option Text → Loop V W E → Options V W
  batch_options v turn_id s = record {
    json = v.json;
    tools = s.run.harness.tools;
    cancel_at = λ n. (after_others v.others s.ticks (n + 1) s.control).cancel_requested;
    sink = v.sink;
    max_output_bytes = s.run.harness.config.max_tool_output_bytes;
    context = v.tool_context;
    turn_id = turn_id;
    step = s.step;
  }
