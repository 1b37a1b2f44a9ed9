-- ===== src/Control/Pending.antt =====
-- Whether a steering input waits, through each operation of the queue.
use mini_agent_harness.Prelude.{
  ◌∙◌, ◌≡◌, refl, Bool, true, false, none, List, [], ◌∷◌, ◌++◌, not, keep, some_of, is_nil, arith,
  Bool-cases, inl, inr,
}
use mini_agent_harness.Protocol.{TurnInput, is_steer}
use mini_agent_harness.Input.Queue
use mini_agent_harness.Input.Queue.{Capacities, PendingInputQueue, queued}
use mini_agent_harness.Input.Bounds.{submit-Accepted}
use mini_agent_harness.Input.Fifo.{
  steering, take_steer-Taken, take_follow_up-Taken, cancel_steers-view,
}

some_of-eq-keep :
    (p : TurnInput → Bool) (is : List TurnInput) → some_of p is ≡ not (is_nil (keep p is))
some_of-eq-keep p [] = refl
some_of-eq-keep p (i ∷ is) = ground (arith, some_of-eq-keep p is)

some_of-append :
    (p : TurnInput → Bool) (is : List TurnInput) (i : TurnInput)
    → p i ≡ false
    → some_of p (is ++ i ∷ []) ≡ some_of p is
some_of-append p [] i e = ground arith
some_of-append p (j ∷ is) i e = ground (arith, some_of-append p is i)

poisoned-take_steer : (q : PendingInputQueue) → (Queue.take_steer q).0.poisoned ≡ q.poisoned
unfolding Queue.take_steer Queue.take_matching
poisoned-take_steer q = ground arith

take_steer_poisoned : (q : PendingInputQueue) → q.poisoned ≡ true → Queue.take_steer q ≡ (q, none)
unfolding Queue.take_steer Queue.take_matching
take_steer_poisoned q h = rw h

has_steer_poisoned : (q : PendingInputQueue) → q.poisoned ≡ true → Queue.has_steer q ≡ false
unfolding Queue.has_steer
has_steer_poisoned q h = rw h

has_steer-eq-keep :
    (q : PendingInputQueue)
    → q.poisoned ≡ false
    → Queue.has_steer q ≡ not (is_nil (keep steering q.inputs))
unfolding Queue.has_steer
has_steer-eq-keep q h = rw h (some_of-eq-keep steering q.inputs)

-- a steering input that is still there after `take_steer` was there before
pub had_steer :
    (q : PendingInputQueue)
    → Queue.has_steer (Queue.take_steer q).0 ≡ true
    → Queue.has_steer q ≡ true
had_steer q h = elim (Bool-cases q.poisoned) [
  | inl p ↦ ground (arith, take_steer_poisoned q p)
  | inr p ↦ ground (
    arith,
    take_steer-Taken q p,
    poisoned-take_steer q,
    has_steer-eq-keep q p,
    has_steer-eq-keep (Queue.take_steer q).0,
  )
]

-- where `take_steer` finds nothing, no steering input is left
pub none_left :
    (q : PendingInputQueue)
    → (Queue.take_steer q).1 ≡ none
    → Queue.has_steer (Queue.take_steer q).0 ≡ false
none_left q h = elim (Bool-cases q.poisoned) [
  | inl p ↦ ground (arith, take_steer_poisoned q p, has_steer_poisoned q p)
  | inr p ↦
      ground (
        arith,
        take_steer-Taken q p,
        poisoned-take_steer q,
        has_steer-eq-keep (Queue.take_steer q).0,
      )
]

poisoned-cancel : (q : PendingInputQueue) → (Queue.cancel_steers q).0.poisoned ≡ q.poisoned
unfolding Queue.cancel_steers
poisoned-cancel q = ground arith

pub has_steer-cancel : (q : PendingInputQueue) → Queue.has_steer (Queue.cancel_steers q).0 ≡ false
has_steer-cancel q = elim (Bool-cases q.poisoned) [
  | inl p ↦ has_steer_poisoned _ (poisoned-cancel q ∙ p)
  | inr p ↦ ground (
    arith,
    cancel_steers-view q p,
    poisoned-cancel q,
    has_steer-eq-keep (Queue.cancel_steers q).0,
  )
]

pub has_steer-submit :
    (C : Capacities) (i : TurnInput) (q q' : PendingInputQueue)
    → Queue.submit C i q ≡ queued q'
    → is_steer i.mode ≡ false
    → Queue.has_steer q' ≡ Queue.has_steer q
unfolding Queue.has_steer
has_steer-submit C i q q' h e =
    ground (arith, submit-Accepted C i q q' h, some_of-append steering q.inputs i e)

poisoned-take_follow_up : (q : PendingInputQueue) → (Queue.take_follow_up q).0.poisoned ≡ q.poisoned
unfolding Queue.take_follow_up Queue.take_matching
poisoned-take_follow_up q = ground arith

take_follow_up_poisoned :
    (q : PendingInputQueue) → q.poisoned ≡ true → Queue.take_follow_up q ≡ (q, none)
unfolding Queue.take_follow_up Queue.take_matching
take_follow_up_poisoned q h = rw h

pub has_steer-follow_up :
    (q : PendingInputQueue) → Queue.has_steer (Queue.take_follow_up q).0 ≡ Queue.has_steer q
has_steer-follow_up q = elim (Bool-cases q.poisoned) [
  | inl p ↦ ground (arith, take_follow_up_poisoned q p)
  | inr p ↦ ground (
    arith,
    take_follow_up-Taken q p,
    poisoned-take_follow_up q,
    has_steer-eq-keep q p,
    has_steer-eq-keep (Queue.take_follow_up q).0,
  )
]
