-- ===== src/Harness/Streamed.antt =====
-- crates/mini-agent-core/src/turn_engine.rs: what an observer sees of a streamed answer.
use mini_agent_harness.Prelude.{
  ℕ, ◌+◌, ◌≤◌, ◌<◌, ◌≡◌, refl, Text, Bool-cases, inl, inr, List, [], ◌∷◌, ◌++◌, append-nil,
  append_assoc, length, leb, u64_max, saturating_add, sym, ap, ◌∙◌, arith, if◌then◌else◌,
}
use mini_agent_harness.Protocol.{
  Event, ModelEvent, assistant_reasoning_delta, assistant_text_delta, reasoning_delta, text_delta,
}
use mini_agent_harness.Harness.Stream
use mini_agent_harness.Harness.Stream.{
  ModelEventForwarder, record_first_output, emit_delta, emit, emit_all,
}

abbrev delta_text : ModelEvent → Text
delta_text (reasoning_delta t) = t
delta_text (text_delta t) = t

abbrev pub delta_event : {V : Type 0} → ModelEvent → Event V
delta_event (reasoning_delta t) = assistant_reasoning_delta t
delta_event (text_delta t) = assistant_text_delta t

abbrev pub deltas_of : {V : Type 0} → List (ℕ × ModelEvent) → List (Event V)
deltas_of [] = []
deltas_of ((now, e) ∷ es) = delta_event e ∷ deltas_of es

abbrev pub delta_bytes : List (ℕ × ModelEvent) → ℕ
delta_bytes [] = 0
delta_bytes ((now, e) ∷ es) = length (delta_text e) + delta_bytes es

-- the bytes of the next delta, if there is one, would pass the limit
abbrev pub IsOverNext : ℕ → ℕ → List (ℕ × ModelEvent) → Type 0
IsOverNext limit used [] = Unit
IsOverNext limit used ((now, e) ∷ es) = limit < used + length (delta_text e)

IsOverNext-cong :
    (m n : ℕ) (hidden : List (ℕ × ModelEvent)) {m' n' : ℕ}
    → m ≡ m'
    → n ≡ n'
    → IsOverNext m n hidden
    → IsOverNext m' n' hidden
IsOverNext-cong m n [] p q h = tt
IsOverNext-cong m n ((now, e) ∷ es) p q h = omega (arith, p, q, h)

module _ {V : Type 0} where
  emit-delta :
      (now : ℕ) (e : ModelEvent) (f : ModelEventForwarder V)
      → emit now e f ≡ emit_delta now (delta_text e) (delta_event e) f
  unfolding emit
  emit-delta now (reasoning_delta t) f = refl
  emit-delta now (text_delta t) f = refl

  -- a delta that is counted, and shown where the count is within the limit
  abbrev Counted : Text → Event V → ModelEventForwarder V → ModelEventForwarder V → Type 0
  Counted delta event f g =
      (g.max_bytes ≡ f.max_bytes)
      × (g.emitted_bytes ≡ saturating_add f.emitted_bytes (length delta))
      × (g.forwarded
          ≡ (if leb g.emitted_bytes f.max_bytes then f.forwarded ++ event ∷ [] else f.forwarded))

  emit_delta-Counted :
      (now : ℕ) (delta : Text) (event : Event V) (f : ModelEventForwarder V)
      → Counted delta event f (emit_delta now delta event f)
  unfolding emit_delta record_first_output
  emit_delta-Counted now delta event f = (ground arith, ground arith, ground arith)

  -- past the limit nothing more is shown
  emit_all-over :
      (es : List (ℕ × ModelEvent)) (f : ModelEventForwarder V)
      → f.max_bytes < u64_max
      → f.max_bytes < f.emitted_bytes
      → (emit_all es f).forwarded ≡ f.forwarded
  unfolding emit_all
  emit_all-over [] f top over = refl
  emit_all-over ((now, e) ∷ es) f top over =
      let g = emit now e f in
      let c : Counted (delta_text e) (delta_event e) f g =
        rw (emit-delta now e f) (emit_delta-Counted now (delta_text e) (delta_event e) f) in
      emit_all-over es g (ground (arith, c)) (ground (arith, c)) ∙ ground (arith, c)

  emit_all-within :
      (es : List (ℕ × ModelEvent)) (f : ModelEventForwarder V)
      → f.max_bytes < u64_max
      → f.emitted_bytes ≤ f.max_bytes
      → (shown : List (ℕ × ModelEvent)) × (hidden : List (ℕ × ModelEvent)) × (es ≡ shown ++ hidden)
        × ((emit_all es f).forwarded ≡ f.forwarded ++ deltas_of shown)
        × (f.emitted_bytes + delta_bytes shown ≤ f.max_bytes)
        × IsOverNext f.max_bytes (f.emitted_bytes + delta_bytes shown) hidden
  unfolding emit_all
  emit_all-within [] f top fits =
      ([], [], refl, sym (append-nil f.forwarded), omega (arith, fits), tt)
  emit_all-within ((now, e) ∷ es) f top fits =
      let g = emit now e f in
      let c : Counted (delta_text e) (delta_event e) f g =
        rw (emit-delta now e f) (emit_delta-Counted now (delta_text e) (delta_event e) f) in
      elim (Bool-cases (leb (f.emitted_bytes + length (delta_text e)) f.max_bytes)) [
        | inl within ↦
            let (shown, hidden, split, seen, used, next) =
              emit_all-within es g (ground (arith, c)) (ground (arith, c, within)) in
            let emitted : g.emitted_bytes ≡ f.emitted_bytes + length (delta_text e) =
              ground (arith, c, within) in
            let gained : g.forwarded ≡ f.forwarded ++ delta_event e ∷ [] =
              ground (arith, c, within) in
            (
              (now, e) ∷ shown,
              hidden,
              ap (λ l. (now, e) ∷ l) split,
              seen ∙ ap (λ l. l ++ deltas_of shown) gained ∙ append_assoc f.forwarded _ _,
              ground (arith, c, used, emitted),
              IsOverNext-cong g.max_bytes _ hidden c.0 (omega (arith, emitted)) next,
            )
        | inr over ↦
            let stopped : (emit_all es g).forwarded ≡ f.forwarded =
              emit_all-over es g (ground (arith, c)) (ground (arith, c, over))
              ∙ ground (arith, c, over) in
            (
              [],
              (now, e) ∷ es,
              refl,
              stopped ∙ sym (append-nil f.forwarded),
              omega (arith, fits),
              ground (arith, over),
            )
      ]

  -- The observer of a streamed answer sees, in order, the longest prefix of the deltas whose bytes
  -- are within the limit, and nothing after it: `hidden` is empty, or its first delta would pass the
  -- limit. The limit is below the largest `usize`, at which the count of the bytes stops.
  pub emit_all-prefix :
      (max_bytes : ℕ) (es : List (ℕ × ModelEvent))
      → max_bytes < u64_max
      → (shown : List (ℕ × ModelEvent)) × (hidden : List (ℕ × ModelEvent)) × (es ≡ shown ++ hidden)
        × ((emit_all es (Stream.new {V = V} max_bytes)).forwarded ≡ deltas_of shown)
        × (delta_bytes shown ≤ max_bytes)
        × IsOverNext max_bytes (delta_bytes shown) hidden
  unfolding Stream.new
  emit_all-prefix max_bytes es top =
      let (shown, hidden, split, seen, used, next) =
        emit_all-within es (Stream.new max_bytes) top (omega arith) in
      (
        shown,
        hidden,
        split,
        seen,
        omega (arith, used),
        IsOverNext-cong max_bytes _ hidden refl (omega arith) next,
      )
