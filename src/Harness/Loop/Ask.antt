-- ===== src/Harness/Loop/Ask.antt =====
-- crates/mini-agent-core/src/harness.rs: asking the model, once more after a compaction where the
-- provider refuses a request for its size.
use mini_agent_harness.Prelude.{
  ℕ, zero, suc, ◌+◌, ◌/◌, Bool, true, false, not, Option, none, some, List, ◌++◌, ◌&&◌, ltb,
  saturating_mul, if◌then◌else◌,
}
use mini_agent_harness.Protocol.{
  Event, ModelEvent, ModelResponse, ModelTiming, ModelContextSnapshot, RunFailure, StopReason,
  model_started,
}
use mini_agent_harness.Control.Run
use mini_agent_harness.Control.Run.{RunControl}
use mini_agent_harness.Session.Bytes.{context_bytes}
use mini_agent_harness.Session.Digest.{stable_digest}
use mini_agent_harness.Harness.Config.{
  Result, ok, err, Harness, HarnessError, ModelRequest, ContextLimitBehavior, ForkCompactionMethod,
}
use mini_agent_harness.Harness.Compact
use mini_agent_harness.Harness.Compact.{Run, compact_context_to}
use mini_agent_harness.Harness.Stream
use mini_agent_harness.Harness.Stream.{ModelEventForwarder}
use mini_agent_harness.Harness.Loop.State.{
  Env, Loop, Flow, fail, Act, pure, modify, observe, on_run, journal_checkpoint, finish, interfere,
  ◌>>=◌, ◌>>◌,
}

-- `response`, with its timing and the model's limits
pub record Answer (V : Type 0) : Type 0 where
  pub response : ModelResponse V
  pub timing : ModelTiming
  pub context : Option ModelContextSnapshot

abbrev pub max_context_window_compaction_retries : ℕ
max_context_window_compaction_retries = 1

unfoldable pub is_compact : ContextLimitBehavior → Bool
is_compact ContextLimitBehavior.compact = true
is_compact ContextLimitBehavior.reject = false

unfoldable pub is_exact : ForkCompactionMethod → Bool
is_exact ForkCompactionMethod.exact = true
is_exact ForkCompactionMethod.model_summary = false
is_exact ForkCompactionMethod.mechanical = false

module _ {V W E : Type 0} where
  -- what `compact_context_with_reduction_target` makes of the method
  unfoldable pub reduced :
      Env V W E
      → ℕ
      → Run V W E × Result (HarnessError E) ForkCompactionMethod
      → Run V W E × Result (HarnessError E) Bool
  reduced v before (r, err e) = (r, err e)
  reduced v before (r, ok method) = (
    r,
    ok (
        not (is_exact method)
        && ltb (context_bytes v.json r.harness.config.system_prompt v.specs r.harness.session)
            before),
  )

  unfoldable pub compact_context_with_reduction_target :
      Env V W E → Run V W E → Run V W E × Result (HarnessError E) Bool
  compact_context_with_reduction_target v r =
      let before = context_bytes v.json r.harness.config.system_prompt v.specs r.harness.session in
      reduced v before
        (compact_context_to v.json v.prompt v.specs (saturating_mul before 9 / 10) true r)

  unfoldable pub request_of : Env V W E → Harness V W E → ModelRequest V
  request_of v h = record {
    system_prompt = h.config.system_prompt;
    messages = h.session.messages;
    tools = v.specs;
    allowed_tools = none;
    max_response_bytes = h.config.max_model_response_bytes;
    model_selection = h.model_selection;
    reasoning_selection = h.reasoning_selection;
    reasoning_effort = h.reasoning_effort;
  }

  -- `model_input_digest` and `tool_manifest_digest` of the harness' input
  unfoldable pub model_started_event : Env V W E → Loop V W E → Event V
  model_started_event v s =
      let h = s.run.harness in
      model_started s.step (context_bytes v.json h.config.system_prompt v.specs h.session)
        (stable_digest (v.encode_input h.config.system_prompt h.session.messages v.specs))
        (stable_digest (v.encode_specs v.specs))

  unfoldable pub read_cancel : Act V W E Bool
  read_cancel s = pure (Run.is_cancel_requested s.control) s

  unfoldable pub set_waker : Act V W E (Unit {0})
  unfolding modify
  set_waker = modify (λ s. record s { control = record s.control { cancel_waker = true } })

  -- One poll of `until_cancelled`, up to the poll of the request: whether it was cancelled.
  unfoldable pub poll_cancel : Env V W E → Act V W E Bool
  poll_cancel v = do
    interfere v
    first ← read_cancel
    (if first then pure true else (interfere v >> (set_waker >> read_cancel)))

  -- The polls until the request is answered, or the number of polls before it is cancelled.
  unfoldable pub await_model : Env V W E → ℕ → ℕ → Act V W E (Option ℕ)
  await_model v polled zero = do
    cancelled ← poll_cancel v
    pure (if cancelled then some polled else none)
  await_model v polled (suc left) = do
    cancelled ← poll_cancel v
    (if cancelled then pure (some polled) else await_model v (polled + 1) left)

  -- what the forwarder has passed on becomes the observer's
  unfoldable pub forward : List (ℕ × ModelEvent) → Loop V W E → ModelEventForwarder V
  forward events s =
      Stream.emit_all events (Stream.new s.run.harness.config.max_model_response_bytes)

  unfoldable pub show : ModelEventForwarder V → Run V W E → Run V W E
  show f r = record r { events = r.events ++ f.forwarded }

  -- the response with its timing, or the error
  unfoldable pub answer_of :
      Env V W E
      → ModelEventForwarder V
      → Loop V W E
      → Result E (ModelResponse V)
      → Result E (Answer V)
  answer_of v f s (err e) = err e
  answer_of v f s (ok response) = ok (record {
    response = response;
    timing = Stream.timing (v.provider.response_ms (request_of v s.run.harness) s.run.world) f;
    context = v.provider.context_snapshot s.run.harness.model_selection;
  })

  -- the request is answered, with a response or an error
  unfoldable pub answered : Env V W E → Act V W E (Result E (Answer V))
  answered v s =
      let request = request_of v s.run.harness in
      let f = forward (v.provider.stream request s.run.world) s in
      let (world, result) = s.run.harness.model request s.run.world in
      (
        record s { run = show f (record s.run { world = world }) },
        Flow.next (answer_of v f s result),
      )

  -- the request is dropped after that many polls, and the run ends
  unfoldable pub abandoned : {A : Type 0} → Env V W E → ℕ → Act V W E A
  abandoned v polled s =
      let (world, events) = v.provider.dropped (request_of v s.run.harness) s.run.world polled in
      let t = record s {
        run = show (forward events s) (record s.run { world = world });
        control = (Run.take_cancel_requested s.control).0;
      } in
      finish t.step StopReason.cancelled t

  unfoldable pub settle_call : Env V W E → Option ℕ → Act V W E (Result E (Answer V))
  settle_call v none = answered v
  settle_call v (some polled) = interfere v >> abandoned v polled

  unfoldable pub polls_of : Env V W E → Act V W E ℕ
  polls_of v s = pure (v.provider.pending_polls (request_of v s.run.harness) s.run.world) s

  -- one round of the inner loop, up to `match model_response`
  unfoldable pub call_model : Env V W E → Act V W E (Result E (Answer V))
  call_model v = do
    (λ s. observe (model_started_event v s) s)
    polls ← polls_of v
    cancelled ← await_model v 0 polls
    settle_call v cancelled

  unfoldable pub fail_model : {A : Type 0} → E → Act V W E A
  unfolding Compact.observe
  fail_model e s = (
    record s { run = Compact.observe (Event.run_failed RunFailure.model) s.run },
    fail (HarnessError.model e),
  )

  unfoldable pub may_compact : Env V W E → E → Loop V W E → Bool
  may_compact v e s =
      is_compact s.run.harness.config.context_limit_behavior && v.provider.is_context_window_error e

  unfoldable pub read_step : Act V W E ℕ
  read_step s = pure s.step s

  unfoldable pub ask_again : Env V W E → Act V W E (Answer V) → E → Act V W E (Answer V)
  ask_again v again e = do
    smaller ← on_run (compact_context_with_reduction_target v)
    (if smaller then (do step ← read_step; journal_checkpoint v step; again) else fail_model e)

  -- the arms of `match model_response`, with `again` as the next round while a retry is left
  unfoldable pub settle_response :
      Env V W E → Option (Act V W E (Answer V)) → Result E (Answer V) → Act V W E (Answer V)
  settle_response v again (ok answer) s = pure answer s
  settle_response v none (err e) s = fail_model e s
  settle_response v (some again) (err e) s =
      (if may_compact v e s then ask_again v again e else fail_model e) s

  -- the inner loop, with the retries that are left
  unfoldable pub ask_model : Env V W E → ℕ → Act V W E (Answer V)
  ask_model v zero = do result ← call_model v; settle_response v none result
  ask_model v (suc retries) = do
    result ← call_model v
    settle_response v (some (ask_model v retries)) result
