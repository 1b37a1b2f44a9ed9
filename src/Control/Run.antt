-- ===== src/Control/Run.antt =====
-- crates/mini-agent-core/src/run_control.rs: `RunControl`. Each atomic flag is a field; a method is
-- one step on the state, and `poll` takes what other threads wrote between its two reads.
use mini_agent_harness.Prelude.{
  ℕ, Text, Bool, true, false, Option, none, some, List, ◌||◌, not, is_some, if◌then◌else◌,
}
use mini_agent_harness.Protocol.{TurnInput, is_steer}
use mini_agent_harness.Input.Queue
use mini_agent_harness.Input.Queue.{
  Capacities, InputQueueError, PendingInputQueue, Submitted, queued, refused,
}

pub data SteeringMode : Type 0 where
  stop_at_checkpoint continue_same_turn : SteeringMode

pub record RunControl : Type 0 where
  pub steer_requested : Bool
  pub cancel_requested : Bool
  pub cancel_waker : Bool  -- a waker is registered
  pub pending_inputs : PendingInputQueue

unfoldable pub new : RunControl
new = record {
  steer_requested = false;
  cancel_requested = false;
  cancel_waker = false;
  pending_inputs = Queue.new Queue.default_max_pending_inputs;
}

unfoldable pub request_steer : RunControl → RunControl
request_steer c = record c { steer_requested = true }

-- The Boolean says whether a registered waker is woken.
unfoldable pub request_cancel : RunControl → RunControl × Bool
request_cancel c = (record c { cancel_requested = true; cancel_waker = false }, c.cancel_waker)

unfoldable pub clear_cancel : RunControl → RunControl
clear_cancel c = record c { cancel_requested = false }

unfoldable pub clear_steer : RunControl → RunControl
clear_steer c = record c { steer_requested = false }

unfoldable pub is_steer_requested : RunControl → Bool
is_steer_requested c = c.steer_requested

unfoldable pub is_cancel_requested : RunControl → Bool
is_cancel_requested c = c.cancel_requested

-- `swap(false)`
unfoldable pub take_cancel_requested : RunControl → RunControl × Bool
take_cancel_requested c = (record c { cancel_requested = false }, c.cancel_requested)

pub data SubmitResult : Type 0 where
  submitted : RunControl → SubmitResult
  rejected : InputQueueError → SubmitResult

after_submit : Bool → Submitted → RunControl → SubmitResult
after_submit steer (queued q) c =
    submitted
      (record c { pending_inputs = q; steer_requested = if steer then true else c.steer_requested })
after_submit steer (refused e) c = rejected e

unfoldable pub submit_steer : Capacities → TurnInput → Option Text → RunControl → SubmitResult
unfolding after_submit
submit_steer C input request_id c =
    after_submit (is_steer input.mode)
      (Queue.submit C (record input { steer_request_id = request_id }) c.pending_inputs) c

unfoldable pub submit : Capacities → TurnInput → RunControl → SubmitResult
submit C input c = submit_steer C input none c

unfoldable pub take_steer_input : RunControl → RunControl × Option TurnInput
take_steer_input c =
    let (q, input) = Queue.take_steer c.pending_inputs in
    let c' = record c { pending_inputs = q } in
    (if not (is_some input) || not (Queue.has_steer q) then clear_steer c' else c', input)

unfoldable pub cancel_pending_steers : RunControl → RunControl × List TurnInput
cancel_pending_steers c =
    let (q, cancelled) = Queue.cancel_steers c.pending_inputs in
    (clear_steer (record c { pending_inputs = q }), cancelled)

unfoldable pub take_follow_up_input : RunControl → RunControl × Option TurnInput
take_follow_up_input c =
    let (q, input) = Queue.take_follow_up c.pending_inputs in
    (record c { pending_inputs = q }, input)

unfoldable pub pending_input_count : RunControl → ℕ
pending_input_count c = Queue.len c.pending_inputs

pub data Poll (A : Type 0) : Type 0 where
  pending : Poll A
  ready : A → Poll A
  cancelled : Poll A

poll_inner : {A : Type 0} → Option A → Poll A
poll_inner none = pending
poll_inner (some a) = ready a

-- One poll of `until_cancelled`: `later` is the flag at the second read, after the waker is set,
-- and `inner` is what the wrapped future answers if it is polled.
unfoldable pub poll_until_cancelled :
    {A : Type 0} → Bool → Option A → RunControl → RunControl × Poll A
unfolding poll_inner
poll_until_cancelled later inner c = if c.cancel_requested then (c, cancelled) else (
  record c { cancel_waker = true; cancel_requested = later },
  if later then cancelled else poll_inner inner,
)
