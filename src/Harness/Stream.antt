-- ===== src/Harness/Stream.antt =====
-- crates/mini-agent-core/src/turn_engine.rs: `ModelEventForwarder`, between a model that streams its
-- answer and the observer. A model event comes with the milliseconds since the forwarder was made.
use mini_agent_harness.Prelude.{
  ℕ, Text, Option, none, some, is_some, List, [], ◌∷◌, ◌++◌, ◌||◌, length, is_nil, leb, u64_max,
  saturating_add, min, if◌then◌else◌,
}
use mini_agent_harness.Protocol.{
  Event, ModelEvent, ModelTiming, assistant_reasoning_delta, assistant_text_delta, reasoning_delta,
  text_delta,
}

-- what the forwarder has given its observer is `forwarded`
pub record ModelEventForwarder (V : Type 0) : Type 0 where
  pub forwarded : List (Event V)
  pub emitted_bytes : ℕ
  pub max_bytes : ℕ
  pub first_output_ms : Option ℕ

module _ {V : Type 0} where
  unfoldable pub new : ℕ → ModelEventForwarder V
  new max_bytes = record {
    forwarded = [];
    emitted_bytes = 0;
    max_bytes = max_bytes;
    first_output_ms = none;
  }

  unfoldable pub timing : ℕ → ModelEventForwarder V → ModelTiming
  timing response_ms f = record { ttft_ms = f.first_output_ms; response_ms = response_ms }

  unfoldable pub record_first_output : ℕ → Text → ModelEventForwarder V → ModelEventForwarder V
  record_first_output now delta f =
      if is_nil delta || is_some f.first_output_ms
      then f
      else record f { first_output_ms = some (min now u64_max) }

  -- the three lines that both arms of `emit` have
  unfoldable pub emit_delta : ℕ → Text → Event V → ModelEventForwarder V → ModelEventForwarder V
  emit_delta now delta event f =
      let f1 = record_first_output now delta f in
      let f2 = record f1 { emitted_bytes = saturating_add f1.emitted_bytes (length delta) } in
      if leb f2.emitted_bytes f2.max_bytes
      then record f2 { forwarded = f2.forwarded ++ event ∷ [] }
      else f2

  unfoldable pub emit : ℕ → ModelEvent → ModelEventForwarder V → ModelEventForwarder V
  emit now (reasoning_delta delta) f = emit_delta now delta (assistant_reasoning_delta delta) f
  emit now (text_delta delta) f = emit_delta now delta (assistant_text_delta delta) f

  unfoldable pub emit_all : List (ℕ × ModelEvent) → ModelEventForwarder V → ModelEventForwarder V
  emit_all [] f = f
  emit_all ((now, event) ∷ events) f = emit_all events (emit now event f)
