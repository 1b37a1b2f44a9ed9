-- ===== src/Control/Steering.antt =====
-- crates/mini-agent-core/src/run_control.rs: operations in sequence, and the steer flag.
use mathlib.Core.Path.{subst}
use mini_agent_harness.Prelude.{
  sym, ap, ◌∙◌, ◌≡◌, refl, Text, true, Option, arith, if◌then◌else◌, Bool-cases, inl, inr,
}
use mini_agent_harness.Protocol.{TurnInput, is_steer}
use mini_agent_harness.Input.Queue
use mini_agent_harness.Input.Queue.{Capacities, PendingInputQueue, queued}
use mini_agent_harness.Input.Bounds.{
  IsBounded, submit-IsBounded, take_matching-IsBounded, cancel_steers-IsBounded,
}
use mini_agent_harness.Control.Run
use mini_agent_harness.Control.Pending.{
  had_steer, none_left, has_steer-cancel, has_steer-submit, has_steer-follow_up,
}

module _ (C : Capacities) where
  -- What the operations below keep, `clear_steer` aside, which the owner of the control calls.
  pub record IsSound (c : Run.RunControl) : Type 0 where
    pub announced : Queue.has_steer c.pending_inputs ≡ true → c.steer_requested ≡ true
    pub bounded : IsBounded C c.pending_inputs

  -- One operation of a client or of the loop on the control.
  pub data Step (c : Run.RunControl) : Run.RunControl → Type 0 where
    steer : Step c (Run.request_steer c)
    cancel : Step c (Run.request_cancel c).0
    uncancel : Step c (Run.clear_cancel c)
    take_cancel : Step c (Run.take_cancel_requested c).0
    submit :
        {c' : Run.RunControl} (input : TurnInput) (request_id : Option Text)
        → Run.submit_steer C input request_id c ≡ Run.submitted c'
        → Step c c'
    take_steer : Step c (Run.take_steer_input c).0
    cancel_steers : Step c (Run.cancel_pending_steers c).0
    take_follow_up : Step c (Run.take_follow_up_input c).0

  pub data Reach (c : Run.RunControl) : Run.RunControl → Type 0 where
    here : Reach c c
    next : {d e : Run.RunControl} → Reach c d → Step d e → Reach c e

  -- an accepted submission is an accepted queue entry, with the flag set for a steering input
  submit_steer-accepted :
      (c c' : Run.RunControl) (input : TurnInput) (request_id : Option Text)
      → Run.submit_steer C input request_id c ≡ Run.submitted c'
      → (q : PendingInputQueue) × (Queue.submit C
            (record input { steer_request_id = request_id })
            c.pending_inputs
          ≡ queued q)
        × (c'.pending_inputs ≡ q)
        × (c'.steer_requested ≡ (if is_steer input.mode then true else c.steer_requested))
  unfolding Run.submit_steer
  submit_steer-accepted c c' input request_id h =
      go (Queue.submit C (record input { steer_request_id = request_id }) c.pending_inputs) refl
    where
      go :
          (r : Queue.Submitted)
          → Queue.submit C (record input { steer_request_id = request_id }) c.pending_inputs ≡ r
          → (q : PendingInputQueue) × (Queue.submit C
                (record input { steer_request_id = request_id })
                c.pending_inputs
              ≡ queued q)
            × (c'.pending_inputs ≡ q)
            × (c'.steer_requested ≡ (if is_steer input.mode then true else c.steer_requested))
      go (queued q) e = (q, e, ground (arith, h, e), ground (arith, h, e))
      go (Queue.refused x) e = absurd (ground (arith, h, e))

  submit-IsSound :
      (c c' : Run.RunControl) (input : TurnInput) (request_id : Option Text)
      → IsSound c
      → Run.submit_steer C input request_id c ≡ Run.submitted c'
      → IsSound c'
  submit-IsSound c c' input request_id s h =
      let (q, e, eq, flag) = submit_steer-accepted c c' input request_id h in
      record {
        announced = elim (Bool-cases (is_steer input.mode)) [
          | inl st ↦ λ _. flag ∙ rw st
          | inr other ↦ λ w.
              flag
              ∙ rw other (
                  s.announced
                    (sym (has_steer-submit C _ _ q e other) ∙ ap Queue.has_steer (sym eq) ∙ w))
        ];
        bounded = subst (IsBounded C) (sym eq) (submit-IsBounded C _ _ q s.bounded e);
      }

  pending-take_steer :
      (c : Run.RunControl)
      → (Run.take_steer_input c).0.pending_inputs ≡ (Queue.take_steer c.pending_inputs).0
  unfolding Run.take_steer_input Run.clear_steer
  pending-take_steer c = ground arith

  take_steer-IsBounded :
      (q : PendingInputQueue) → IsBounded C q → IsBounded C (Queue.take_steer q).0
  unfolding Queue.take_steer
  take_steer-IsBounded q b = take_matching-IsBounded C _ q b

  take_steer-IsSound : (c : Run.RunControl) → IsSound c → IsSound (Run.take_steer_input c).0
  take_steer-IsSound c s = record {
    announced =
        (unfold Run.take_steer_input Run.clear_steer in
          ground (arith, had_steer c.pending_inputs, none_left c.pending_inputs, s.announced));
    bounded =
        subst (IsBounded C) (sym (pending-take_steer c))
          (take_steer-IsBounded c.pending_inputs s.bounded);
  }

  cancel_steers-IsSound : (c : Run.RunControl) → IsSound c → IsSound (Run.cancel_pending_steers c).0
  unfolding Run.cancel_pending_steers Run.clear_steer
  cancel_steers-IsSound c s = record {
    announced = λ w. cc (has_steer-cancel c.pending_inputs);
    bounded = cancel_steers-IsBounded C c.pending_inputs s.bounded;
  }

  take_follow_up-IsSound : (c : Run.RunControl) → IsSound c → IsSound (Run.take_follow_up_input c).0
  unfolding Run.take_follow_up_input
  take_follow_up-IsSound c s = record {
    announced = λ w. s.announced (sym (has_steer-follow_up c.pending_inputs) ∙ w);
    bounded =
        (unfold Queue.take_follow_up in take_matching-IsBounded C _ c.pending_inputs s.bounded);
  }

  -- Each operation keeps: a waiting steering input is announced, and the queue is bounded.
  Step-IsSound : {c d : Run.RunControl} → Step c d → IsSound c → IsSound d
  unfolding Run.request_steer Run.request_cancel Run.clear_cancel Run.take_cancel_requested
  Step-IsSound steer s = record { announced = λ _. refl; bounded = s.bounded }
  Step-IsSound cancel s = record { announced = s.announced; bounded = s.bounded }
  Step-IsSound uncancel s = record { announced = s.announced; bounded = s.bounded }
  Step-IsSound take_cancel s = record { announced = s.announced; bounded = s.bounded }
  Step-IsSound {c} {d} (submit input request_id h) s = submit-IsSound c d input request_id s h
  Step-IsSound {c} take_steer s = take_steer-IsSound c s
  Step-IsSound {c} cancel_steers s = cancel_steers-IsSound c s
  Step-IsSound {c} take_follow_up s = take_follow_up-IsSound c s

  new-IsSound : IsSound Run.new
  unfolding Run.new Queue.new
  new-IsSound = record {
    announced = (unfold Queue.has_steer in λ w. cc);
    bounded = record { count = omega arith; bytes = omega arith; items = tt };
  }

  Reach-IsSound_from : {c d : Run.RunControl} → IsSound c → Reach c d → IsSound d
  Reach-IsSound_from s here = s
  Reach-IsSound_from s (next r st) = Step-IsSound st (Reach-IsSound_from s r)

  -- After any of the operations of `Step` on a new control, `clear_steer` not among them and each done
  -- alone, a waiting steering input has the steer flag set, and the queue is within its capacity,
  -- its byte limits and the modes that wait.
  pub Reach-IsSound : {c : Run.RunControl} → Reach Run.new c → IsSound c
  Reach-IsSound r = Reach-IsSound_from new-IsSound r
