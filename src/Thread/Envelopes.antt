-- ===== src/Thread/Envelopes.antt =====
-- crates/mini-agent-core/src/thread.rs, `EnvelopeObserver`: the sequence number and the item of each
-- event. The sink's hooks are the host's: each may take sequence numbers for events of its own.
use mini_agent_harness.Prelude.{
  ℕ, Text, Option, none, some, List, [], ◌∷◌, ◌++◌, codes, saturating_add,
}
use mini_agent_harness.Protocol.{Event, EventEnvelope, new_envelope}
use mini_agent_harness.Compaction.Parts.{decimal}

-- `before_event` and `after_event`: the next sequence number that they leave
pub record Hooks (V : Type 0) : Type 0 where
  pub before_event : Event V → ℕ → ℕ
  pub after_event : Event V → ℕ → ℕ

-- `emitted` is what the sink has received.
pub record EnvelopeObserver (V : Type 0) : Type 0 where
  pub emitted : List (EventEnvelope V)
  pub thread_id : Text
  pub turn_id : Text
  pub next_sequence : ℕ
  pub active_compaction_item_id : Option Text
  pub active_model_item_id : Option Text

module _ {V : Type 0} where
  unfoldable pub new : Text → Text → ℕ → EnvelopeObserver V
  new thread_id turn_id next_sequence = record {
    emitted = [];
    thread_id = thread_id;
    turn_id = turn_id;
    next_sequence = next_sequence;
    active_compaction_item_id = none;
    active_model_item_id = none;
  }

  model_started : ℕ → EnvelopeObserver V → EnvelopeObserver V × Option Text
  model_started step o =
      let item_id = o.turn_id ++ (codes ":model:" ++ decimal step) in
      (record o { active_model_item_id = some item_id }, some item_id)

  compaction_started : ℕ → EnvelopeObserver V → EnvelopeObserver V × Option Text
  compaction_started sequence o =
      let item_id = o.turn_id ++ (codes ":compaction:" ++ decimal sequence) in
      (record o { active_compaction_item_id = some item_id }, some item_id)

  -- the item of an event, with the items that stay active
  unfoldable pub item_of : ℕ → Event V → EnvelopeObserver V → EnvelopeObserver V × Option Text
  unfolding model_started compaction_started
  item_of sequence (Event.skills_loaded a b c) o = (o, some (o.turn_id ++ codes ":skills"))
  item_of sequence (Event.skills_load_failed a b c) o = (o, some (o.turn_id ++ codes ":skills"))
  item_of sequence (Event.skill_group_activated a b) o = (o, some (o.turn_id ++ codes ":skills"))
  item_of sequence (Event.model_started step a b c) o = model_started step o
  item_of sequence (Event.assistant_reasoning_delta a) o = (o, o.active_model_item_id)
  item_of sequence (Event.assistant_text_delta a) o = (o, o.active_model_item_id)
  item_of sequence (Event.model_responded a b c d e f g) o =
      (record o { active_model_item_id = none }, o.active_model_item_id)
  item_of sequence (Event.context_compaction_started a) o = compaction_started sequence o
  item_of sequence (Event.context_compaction_finished a b c) o =
      (record o { active_compaction_item_id = none }, o.active_compaction_item_id)
  item_of sequence event o = (o, none)

  unfoldable pub observe : Hooks V → Event V → EnvelopeObserver V → EnvelopeObserver V
  observe hooks event o =
      let sequence = hooks.before_event event o.next_sequence in
      let (o', item_id) = item_of sequence event o in
      let envelope = new_envelope o.thread_id (some o.turn_id) sequence event in
      record o' {
        emitted = o.emitted ++ record envelope { item_id = item_id } ∷ [];
        next_sequence = hooks.after_event event (saturating_add sequence 1);
      }

  unfoldable pub observe_all : Hooks V → List (Event V) → EnvelopeObserver V → EnvelopeObserver V
  observe_all hooks [] o = o
  observe_all hooks (event ∷ events) o = observe_all hooks events (observe hooks event o)
