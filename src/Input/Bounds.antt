-- ===== src/Input/Bounds.antt =====
-- crates/mini-agent-core/src/input.rs: the bounds of the queue, and what is accepted.
use mathlib.Core.Path.{subst}
use mini_agent_harness.Prelude.{
  sym, ◌<◌, saturating_add, ℕ, ◌+◌, ◌≤◌, ◌≡◌, Bool, true, false, not, Option, none, some, List, [],
  ◌∷◌, ◌++◌, map, length, All, All-append, All-keep, keep, length-append, length-keep, sum,
  saturating_sum-eq-min, arith, if◌then◌else◌,
}
use mini_agent_harness.Protocol.{TurnInput, is_start, is_steer}
use mini_agent_harness.Input.Queue.{
  Capacities, PendingInputQueue, queued, retained_bytes, queued_bytes, submit, remove_first,
  take_matching, cancel_steers, max_pending_input_bytes, max_pending_input_item_bytes,
}

module _ (C : Capacities) where
  -- the bytes of the waiting inputs, with no saturation
  abbrev pub total_bytes : List TurnInput → ℕ
  total_bytes inputs = sum (map (retained_bytes C) inputs)

  abbrev pub IsWaiting : TurnInput → Type 0
  IsWaiting i = (retained_bytes C i ≤ max_pending_input_item_bytes) × (is_start i.mode ≡ false)

  pub record IsBounded (q : PendingInputQueue) : Type 0 where
    pub count : length q.inputs ≤ q.capacity
    pub bytes : total_bytes q.inputs ≤ max_pending_input_bytes
    pub items : All IsWaiting q.inputs

  queued_bytes-eq-total :
      (is : List TurnInput)
      → total_bytes is ≤ max_pending_input_bytes
      → queued_bytes C is ≡ total_bytes is
  unfolding queued_bytes
  queued_bytes-eq-total is h =
      omega (arith, saturating_sum-eq-min (map (retained_bytes C) is) 0 (omega arith))

  total_bytes-append :
      (is js : List TurnInput) → total_bytes (is ++ js) ≡ total_bytes is + total_bytes js
  total_bytes-append [] js = omega arith
  total_bytes-append (i ∷ is) js = omega (arith, total_bytes-append is js)

  total_bytes-keep :
      (p : TurnInput → Bool) (is : List TurnInput) → total_bytes (keep p is) ≤ total_bytes is
  total_bytes-keep p [] = omega arith
  total_bytes-keep p (i ∷ is) = ground (arith, total_bytes-keep p is)

  -- The five tests of a submission, and what it makes of the queue.
  pub record Accepted (i : TurnInput) (q q' : PendingInputQueue) : Type 0 where
    pub waits : is_start i.mode ≡ false
    pub fits : retained_bytes C i ≤ max_pending_input_item_bytes
    pub unlocked : q.poisoned ≡ false
    pub room : length q.inputs < q.capacity
    pub total :
        saturating_add (queued_bytes C q.inputs) (retained_bytes C i) ≤ max_pending_input_bytes
    pub appended : q' ≡ record q { inputs = q.inputs ++ i ∷ [] }

  pub submit-Accepted :
      (i : TurnInput) (q q' : PendingInputQueue) → submit C i q ≡ queued q' → Accepted i q q'
  unfolding submit
  submit-Accepted i q q' h = ground arith

  push-IsBounded :
      (i : TurnInput) (q : PendingInputQueue)
      → IsBounded q
      → Accepted i q (record q { inputs = q.inputs ++ i ∷ [] })
      → IsBounded (record q { inputs = q.inputs ++ i ∷ [] })
  push-IsBounded i q b a = record {
    count = omega (arith, length-append q.inputs (i ∷ []));
    bytes = omega (
      arith,
      total_bytes-append q.inputs (i ∷ []),
      queued_bytes-eq-total q.inputs b.bytes,
      a.total,
    );
    items = All-append IsWaiting q.inputs (i ∷ []) b.items ((a.fits, a.waits), tt);
  }

  -- Accepting an input keeps the queue within its capacity and the byte limits.
  pub submit-IsBounded :
      (i : TurnInput) (q q' : PendingInputQueue)
      → IsBounded q
      → submit C i q ≡ queued q'
      → IsBounded q'
  submit-IsBounded i q q' b h =
      let a = submit-Accepted i q q' h in
      subst IsBounded (sym a.appended)
        (push-IsBounded i q b (subst (λ p. Accepted i q p) a.appended a))

  -- what a removal leaves is no longer, no larger, and holds waiting inputs
  abbrev Shrinks : List TurnInput → Option (TurnInput × List TurnInput) → Type 0
  Shrinks is none = Unit
  Shrinks is (some (i, rest)) =
      (length rest ≤ length is)
      × (total_bytes rest ≤ total_bytes is)
      × (All IsWaiting is → All IsWaiting rest)

  remove_first-Shrinks :
      (matches : TurnInput → Bool) (is : List TurnInput) → Shrinks is (remove_first matches is)
  unfolding remove_first
  remove_first-Shrinks matches [] = tt
  remove_first-Shrinks matches (i ∷ is) =
      go (matches i) (remove_first matches is) (remove_first-Shrinks matches is)
    where
      go :
          (b : Bool) (o : Option (TurnInput × List TurnInput))
          → Shrinks is o
          → Shrinks
              (i ∷ is)
              (if b then some (i, is) else elim o [ none ↦ none | some (j, js) ↦ some (j, i ∷ js) ])
      go true o s = (omega arith, omega arith, λ a. a.1)
      go false none s = tt
      go false (some (j, js)) s = (omega arith, omega arith, λ a. (a.0, s.2 a.1))

  -- Taking an input, found or not, keeps the bounds.
  pub take_matching-IsBounded :
      (matches : TurnInput → Bool) (q : PendingInputQueue)
      → IsBounded q
      → IsBounded (take_matching matches q).0
  unfolding take_matching
  take_matching-IsBounded matches q b =
      go q.poisoned (remove_first matches q.inputs) (remove_first-Shrinks matches q.inputs)
    where
      go :
          (p : Bool) (o : Option (TurnInput × List TurnInput))
          → Shrinks q.inputs o
          → let r : PendingInputQueue × Option TurnInput =
              (if p then (q, none) else elim o [
                | none ↦ (q, none)
                | some (i, rest) ↦ (record q { inputs = rest }, some i)
              ]) in
            IsBounded r.0
      go true o s = b
      go false none s = b
      go false (some (i, rest)) s = record {
        count = omega (arith, s.0, b.count);
        bytes = omega (arith, s.1, b.bytes);
        items = s.2 b.items;
      }

  pub cancel_steers-IsBounded :
      (q : PendingInputQueue) → IsBounded q → IsBounded (cancel_steers q).0
  unfolding cancel_steers
  cancel_steers-IsBounded q b = go q.poisoned
    where
      rest : List TurnInput
      rest = keep (λ i. not (is_steer i.mode)) q.inputs

      go :
          (p : Bool)
          → let r : PendingInputQueue × List TurnInput =
              (if p
                then (q, [])
                else (record q { inputs = rest }, keep (λ i. is_steer i.mode) q.inputs)) in
            IsBounded r.0
      go true = b
      go false = record {
        count = omega (arith, length-keep (λ i. not (is_steer i.mode)) q.inputs, b.count);
        bytes = omega (arith, total_bytes-keep (λ i. not (is_steer i.mode)) q.inputs, b.bytes);
        items = All-keep IsWaiting _ q.inputs b.items;
      }
