-- ===== src/Thread/Sequences.antt =====
-- crates/mini-agent-core/src/thread.rs, `EnvelopeObserver`: the order of the envelopes.
use mathlib.Core.List.{map-append}
use mini_agent_harness.Prelude.{
  ℕ, ◌+◌, ◌≤◌, ◌<◌, ◌≡◌, sym, ap, ◌∙◌, List, [], ◌∷◌, ◌++◌, map, saturating_add, append-nil,
  append_assoc, u64_max, arith,
}
use mini_agent_harness.Protocol.{Event, EventEnvelope, new_envelope}
use mini_agent_harness.Thread.Envelopes.{Hooks, EnvelopeObserver, observe, observe_all}

-- A hook may take sequence numbers, gives none back, and stays within a `u64`.
abbrev pub IsMonotone : (ℕ → ℕ) → Type 0
IsMonotone hook = (n : ℕ) → n ≤ u64_max → (n ≤ hook n) × (hook n ≤ u64_max)

module _ {V : Type 0} where
  -- The sequence numbers increase strictly, from `low` on, and all are below `high`.
  abbrev pub Ascending : ℕ → List (EventEnvelope V) → ℕ → Type 0
  Ascending low [] high = low ≤ high
  Ascending low (e ∷ es) high = (low ≤ e.sequence) × Ascending (e.sequence + 1) es high

  abbrev pub AreMonotone : Hooks V → Type 0
  AreMonotone hooks =
      (event : Event V)
      → IsMonotone (hooks.before_event event) × IsMonotone (hooks.after_event event)

  Ascending-append :
      (low middle high : ℕ) (es : List (EventEnvelope V)) (e : EventEnvelope V)
      → Ascending low es middle
      → middle ≤ e.sequence
      → e.sequence < high
      → Ascending low (es ++ e ∷ []) high
  Ascending-append low middle high [] e h g k = (omega arith, omega arith)
  Ascending-append low middle high (x ∷ es) e h g k =
      (h.0, Ascending-append (x.sequence + 1) middle high es e h.1 g k)

  module _ (hooks : Hooks V) (mono : AreMonotone hooks) where
    -- one event: the numbers after it
    observe-rises :
        (event : Event V) (o : EnvelopeObserver V)
        → o.next_sequence ≤ u64_max
        → (o.next_sequence ≤ (observe hooks event o).next_sequence)
          × ((observe hooks event o).next_sequence ≤ u64_max)
    unfolding observe
    observe-rises event o h = (omega (arith, b.0, b.1, a.0), a.1)
      where
        sequence : ℕ
        sequence = hooks.before_event event o.next_sequence

        b : (o.next_sequence ≤ sequence) × (sequence ≤ u64_max)
        b = (mono event).0 o.next_sequence h

        a :
            (saturating_add sequence 1 ≤ hooks.after_event event (saturating_add sequence 1))
            × (hooks.after_event event (saturating_add sequence 1) ≤ u64_max)
        a = (mono event).1 (saturating_add sequence 1) (omega arith)

    observe_all-rises :
        (events : List (Event V)) (o : EnvelopeObserver V)
        → o.next_sequence ≤ u64_max
        → o.next_sequence ≤ (observe_all hooks events o).next_sequence
    unfolding observe_all
    observe_all-rises [] o h = omega arith
    observe_all-rises (event ∷ events) o h = omega (
      arith,
      observe-rises event o h,
      observe_all-rises events (observe hooks event o) (observe-rises event o h).1,
    )

    observe-Ascending :
        (low : ℕ) (event : Event V) (o : EnvelopeObserver V)
        → o.next_sequence ≤ u64_max
        → (observe hooks event o).next_sequence < u64_max
        → Ascending low o.emitted o.next_sequence
        → Ascending low (observe hooks event o).emitted (observe hooks event o).next_sequence
    unfolding observe new_envelope
    observe-Ascending low event o h below up =
        Ascending-append low o.next_sequence _ o.emitted _ up ((mono event).0 o.next_sequence h).0 (
          omega (
            arith,
            below,
            (mono event).0 o.next_sequence h,
            (mono event).1 (saturating_add (hooks.before_event event o.next_sequence) 1)
                (omega arith),
          ))

    -- As long as the `u64` of the sequence numbers is not used up, and the sink's hooks only raise it,
    -- the envelopes of any events carry strictly increasing numbers, all below the number that the
    -- Thread goes on with, and each event is delivered once, in order.
    pub observe_all-Ascending :
        (low : ℕ) (events : List (Event V)) (o : EnvelopeObserver V)
        → o.next_sequence ≤ u64_max
        → (observe_all hooks events o).next_sequence < u64_max
        → Ascending low o.emitted o.next_sequence
        → let o' = observe_all hooks events o in
          Ascending low o'.emitted o'.next_sequence
          × (map (λ e. e.event) o'.emitted ≡ map (λ e. e.event) o.emitted ++ events)
    unfolding observe_all observe new_envelope
    observe_all-Ascending low [] o h below up = (up, sym (append-nil _))
    observe_all-Ascending low (event ∷ events) o h below up =
        let r = observe-rises event o h in
        let rest = observe_all-Ascending low events (observe hooks event o) r.1 below (
          observe-Ascending low event o h
            (omega (arith, below, observe_all-rises events (observe hooks event o) r.1)) up) in
        (
          rest.0,
          rest.1
              ∙ ap (λ l. l ++ events) (map-append _ o.emitted _)
              ∙ append_assoc (map (λ e. e.event) o.emitted) (event ∷ []) events,
        )
