-- ===== src/Examples/Queues.antt =====
-- A queue with a follow-up and a steering input that arrives.
use mini_agent_harness.Prelude.{◌≡◌, refl, true, false, none, [], ◌∷◌, arith}
use mini_agent_harness.Protocol.{TurnInputMode}
use mini_agent_harness.Input.Queue
use mini_agent_harness.Input.Queue.{
  PendingInputQueue, queued, retained_bytes, queued_bytes, submit, take_steer, take_follow_up,
  cancel_steers, max_pending_input_item_bytes, max_pending_input_bytes,
}
use mini_agent_harness.Input.Bounds.{IsBounded, submit-IsBounded}
use mini_agent_harness.Input.Fifo.{
  view, enqueue, Taken, steering, following, view-submit, take_steer-Taken, take_follow_up-Taken,
  cancel_steers-view,
}
use mini_agent_harness.Control.Run
use mini_agent_harness.Control.Steering.{IsSound, Step, Reach, Reach-IsSound}
use mini_agent_harness.Examples.Data.{capacities, input}

abbrev one : PendingInputQueue
one = record { inputs = input TurnInputMode.follow_up ∷ []; capacity = 2; poisoned = false }

abbrev two : PendingInputQueue
two = record {
  inputs = input TurnInputMode.follow_up ∷ input TurnInputMode.steer ∷ [];
  capacity = 2;
  poisoned = false;
}

steer_accepted : submit capacities (input TurnInputMode.steer) one ≡ queued two
unfolding submit retained_bytes queued_bytes
steer_accepted = refl

one-IsBounded : IsBounded capacities one
unfolding retained_bytes
one-IsBounded = record {
  count = omega arith;
  bytes = omega arith;
  items = ((omega arith, refl), tt);
}

submit-IsBounded_example : IsBounded capacities two
submit-IsBounded_example =
    submit-IsBounded capacities (input TurnInputMode.steer) one two one-IsBounded steer_accepted

view-submit_example : view two ≡ enqueue (input TurnInputMode.steer) (view one)
view-submit_example = view-submit capacities (input TurnInputMode.steer) one two steer_accepted

take_steer-Taken_example :
    Taken steering following two.inputs (take_steer two).0.inputs (take_steer two).1
take_steer-Taken_example = take_steer-Taken two refl

take_follow_up-Taken_example :
    Taken following steering two.inputs (take_follow_up two).0.inputs (take_follow_up two).1
take_follow_up-Taken_example = take_follow_up-Taken two refl

cancel_steers-view_example :
    ((cancel_steers two).1 ≡ (view two).steers)
    × (view (cancel_steers two).0 ≡ record { steers = []; follow_ups = (view two).follow_ups })
cancel_steers-view_example = cancel_steers-view two refl

-- a steering input arrives on a new control, and a client asks to cancel
steered : Run.RunControl
steered = record Run.new {
  steer_requested = true;
  pending_inputs = record {
    inputs = input TurnInputMode.steer ∷ [];
    capacity = 16;
    poisoned = false;
  };
}

steered_accepted :
    Run.submit_steer capacities (input TurnInputMode.steer) none Run.new ≡ Run.submitted steered
unfolding Run.submit_steer submit steered Run.new Queue.new retained_bytes queued_bytes
steered_accepted = refl

steered-Reach : Reach capacities Run.new (Run.request_cancel steered).0
steered-Reach =
    Reach.next
      (Reach.next Reach.here (Step.submit (input TurnInputMode.steer) none steered_accepted))
      Step.cancel

Reach-IsSound_example : IsSound capacities (Run.request_cancel steered).0
Reach-IsSound_example = Reach-IsSound capacities steered-Reach
