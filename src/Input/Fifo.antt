-- ===== src/Input/Fifo.antt =====
-- crates/mini-agent-core/src/input.rs: the queue as a client sees it, in two first-in first-out
-- queues, one for steering inputs and one for follow-ups.
use mathlib.Core.Path.{subst}
use mathlib.Core.Option
use mini_agent_harness.Prelude.{
  ◌≡◌, refl, sym, ap, ◌∙◌, Bool, true, false, not, Option, none, some, List, [], ◌∷◌, ◌++◌, keep,
  Bool-cases, inl, inr, drop, arith, if◌then◌else◌,
}
use mini_agent_harness.Protocol.{TurnInput, is_steer, is_follow_up}
use mini_agent_harness.Input.Queue.{
  Capacities, PendingInputQueue, queued, submit, remove_first, take_matching, take_steer,
  take_follow_up, cancel_steers,
}
use mini_agent_harness.Input.Bounds.{submit-Accepted}

abbrev pub steering : TurnInput → Bool
steering i = is_steer i.mode

abbrev pub following : TurnInput → Bool
following i = is_follow_up i.mode

-- The abstract view: what waits in each of the two queues.
pub record View : Type 0 where
  pub steers : List TurnInput
  pub follow_ups : List TurnInput

abbrev pub view : PendingInputQueue → View
view q = record { steers = keep steering q.inputs; follow_ups = keep following q.inputs }

-- Submission in the abstract: at the end of the queue that the mode names.
abbrev pub enqueue : TurnInput → View → View
enqueue i v = record {
  steers = if steering i then v.steers ++ i ∷ [] else v.steers;
  follow_ups = if following i then v.follow_ups ++ i ∷ [] else v.follow_ups;
}

abbrev pub pop : List TurnInput → Option (TurnInput × List TurnInput)
pop [] = none
pop (i ∷ is) = some (i, is)

keep_last :
    (p : TurnInput → Bool) (is : List TurnInput) (i : TurnInput)
    → keep p (is ++ i ∷ []) ≡ (if p i then keep p is ++ i ∷ [] else keep p is)
keep_last p [] i = refl
keep_last p (j ∷ is) i = ground (arith, keep_last p is i)

-- An accepted submission enqueues the input in its own queue and leaves the other alone.
pub view-submit :
    (C : Capacities) (i : TurnInput) (q q' : PendingInputQueue)
    → submit C i q ≡ queued q'
    → view q' ≡ enqueue i (view q)
view-submit C i q q' h = ap view (submit-Accepted C i q q' h).appended ∙ λ k. record {
  steers = keep_last steering q.inputs i k;
  follow_ups = keep_last following q.inputs i k;
}

-- what a removal by `p` does to the matching inputs, and to those of a disjoint test `r`
abbrev Removes :
    (p r : TurnInput → Bool) → List TurnInput → Option (TurnInput × List TurnInput) → Type 0
Removes p r is none = (keep p is ≡ [])
Removes p r is (some (i, rest)) = (keep p is ≡ i ∷ keep p rest) × (keep r rest ≡ keep r is)

-- the option that `remove_first` builds from the tail's
abbrev put_back :
    TurnInput → Option (TurnInput × List TurnInput) → Option (TurnInput × List TurnInput)
put_back i none = none
put_back i (some (j, js)) = some (j, i ∷ js)

remove_first-cons :
    (p : TurnInput → Bool) (i : TurnInput) (is : List TurnInput)
    → remove_first p (i ∷ is) ≡ (if p i then some (i, is) else put_back i (remove_first p is))
unfolding remove_first
remove_first-cons p i is = ground arith

module _ (p r : TurnInput → Bool) (disjoint : (i : TurnInput) → p i ≡ true → r i ≡ false) where
  Removes-found :
      (i : TurnInput) (is : List TurnInput) → p i ≡ true → Removes p r (i ∷ is) (some (i, is))
  Removes-found i is h = ground (arith, disjoint i h)

  Removes-put_back :
      (i : TurnInput) (is : List TurnInput) (o : Option (TurnInput × List TurnInput))
      → p i ≡ false
      → Removes p r is o
      → Removes p r (i ∷ is) (put_back i o)
  Removes-put_back i is none h g = ground arith
  Removes-put_back i is (some (j, js)) h g = ground arith

  remove_first-Removes : (is : List TurnInput) → Removes p r is (remove_first p is)
  unfolding remove_first
  remove_first-Removes [] = refl
  remove_first-Removes (i ∷ is) = elim (Bool-cases (p i)) [
    | inl e ↦
        subst (Removes p r (i ∷ is))
          (sym (
            remove_first-cons p i is
            ∙ ap (λ b. if b then some (i, is) else put_back i (remove_first p is)) e))
          (Removes-found i is e)
    | inr e ↦
        subst (Removes p r (i ∷ is))
          (sym (
            remove_first-cons p i is
            ∙ ap (λ b. if b then some (i, is) else put_back i (remove_first p is)) e))
          (Removes-put_back i is (remove_first p is) e (remove_first-Removes is))
  ]

-- What a caller gets: the oldest matching input and the abstract queue without it, or nothing.
pub record Taken (p r : TurnInput → Bool) (before after : List TurnInput) (got : Option TurnInput)
    : Type 0 where
  pub oldest : got ≡ Option.map (λ (x : TurnInput × List TurnInput). x.0) (pop (keep p before))
  pub others : keep r after ≡ keep r before
  pub rest : keep p after ≡ drop 1 (keep p before)

Taken-of_Removes :
    (p r : TurnInput → Bool) (q : PendingInputQueue) (o : Option (TurnInput × List TurnInput))
    → Removes p r q.inputs o
    → let x : PendingInputQueue × Option TurnInput = (elim o [
      | none ↦ (q, none)
      | some (i, rest) ↦ (record q { inputs = rest }, some i)
    ]) in
      Taken p r q.inputs x.0.inputs x.1
Taken-of_Removes p r q none h = ground arith
Taken-of_Removes p r q (some (i, rest)) h = ground arith

take_matching-Taken :
    (p r : TurnInput → Bool)
    → ((i : TurnInput) → p i ≡ true → r i ≡ false)
    → (q : PendingInputQueue) → q.poisoned ≡ false
    → Taken p r q.inputs (take_matching p q).0.inputs (take_matching p q).1
unfolding take_matching
take_matching-Taken p r disjoint q h =
    rw h (
      Taken-of_Removes p r q (remove_first p q.inputs) (remove_first-Removes p r disjoint q.inputs))

steer_not_following : (i : TurnInput) → steering i ≡ true → following i ≡ false
steer_not_following i h = ground arith

follow_not_steering : (i : TurnInput) → following i ≡ true → steering i ≡ false
follow_not_steering i h = ground arith

-- On a lock that is not poisoned, `take_steer` returns the oldest steering input, or nothing if
-- none waits; the younger ones stay in order and so do the follow-ups.
pub take_steer-Taken :
    (q : PendingInputQueue)
    → q.poisoned ≡ false
    → Taken steering following q.inputs (take_steer q).0.inputs (take_steer q).1
unfolding take_steer
take_steer-Taken q h = take_matching-Taken steering following steer_not_following q h

-- The same for `take_follow_up`, with the two kinds exchanged.
pub take_follow_up-Taken :
    (q : PendingInputQueue)
    → q.poisoned ≡ false
    → Taken following steering q.inputs (take_follow_up q).0.inputs (take_follow_up q).1
unfolding take_follow_up
take_follow_up-Taken q h = take_matching-Taken following steering follow_not_steering q h

keep_other : (is : List TurnInput) → keep steering (keep (λ i. not (steering i)) is) ≡ []
keep_other [] = refl
keep_other (i ∷ is) = ground (arith, keep_other is)

keep-following :
    (is : List TurnInput) → keep following (keep (λ i. not (steering i)) is) ≡ keep following is
keep-following [] = refl
keep-following (i ∷ is) = ground (arith, keep-following is)

-- On a lock that is not poisoned, `cancel_steers` returns every steering input in order, leaves
-- none of them and leaves the follow-ups as they were.
pub cancel_steers-view :
    (q : PendingInputQueue)
    → q.poisoned ≡ false
    → ((cancel_steers q).1 ≡ (view q).steers)
      × (view (cancel_steers q).0 ≡ record { steers = []; follow_ups = (view q).follow_ups })
unfolding cancel_steers
cancel_steers-view q h =
    rw h
      (refl, λ k. record { steers = keep_other q.inputs k; follow_ups = keep-following q.inputs k })
