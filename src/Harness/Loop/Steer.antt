-- ===== src/Harness/Loop/Steer.antt =====
-- crates/mini-agent-core/src/harness.rs: the looks at the run control, and the checks before a step.
use mini_agent_harness.Prelude.{
  ◌-◌, Text, Bool, true, false, Option, none, some, [], ◌∷◌, ◌++◌, ◌&&◌, ltb, text_mem,
  saturating_add, if◌then◌else◌,
}
use mini_agent_harness.Protocol.{LimitExceeded, StopReason, TurnInput}
use mini_agent_harness.Execution.{ExecutionRunContext}
use mini_agent_harness.Control.Run
use mini_agent_harness.Control.Run.{RunControl, SteeringMode}
use mini_agent_harness.Harness.Config.{Result, ok, err, Harness, HarnessError}
use mini_agent_harness.Harness.History
use mini_agent_harness.Harness.History.{check_limit}
use mini_agent_harness.Harness.Compact.{Run, fail_limit}
use mini_agent_harness.Harness.Loop.State.{
  Env, Act, pure, modify, on_run, finish, interfere, ◌>>=◌, ◌>>◌,
}
use mini_agent_harness.Harness.Loop.Ask.{read_step}

-- `ControlAction`, without the outcome of `Finish`, which ends the run
pub data ControlAction : Type 0 where
  proceed continue_turn : ControlAction

unfoldable pub continues_same_turn : SteeringMode → Bool
continues_same_turn SteeringMode.continue_same_turn = true
continues_same_turn SteeringMode.stop_at_checkpoint = false

-- the request id of an applied steer is noted once
unfoldable pub note_steer : Option Text → ExecutionRunContext → ExecutionRunContext
note_steer none x = x
note_steer (some id) x =
    if text_mem id x.applied_steer_request_ids
    then x
    else record x { applied_steer_request_ids = x.applied_steer_request_ids ++ id ∷ [] }

unfoldable pub note_applied : Option Text → Option ExecutionRunContext → Option ExecutionRunContext
note_applied id none = none
note_applied id (some x) = some (note_steer id x)

module _ {V W E : Type 0} where
  unfoldable pub fail_over :
      {A : Type 0} → LimitExceeded → Run V W E → Run V W E × Result (HarnessError E) A
  fail_over e r = let (r', x) = fail_limit e r in (r', err x)

  -- `if let Err(limit) = .. { return Err(fail_limit(limit, observer)) }`
  unfoldable pub check : Option LimitExceeded → Run V W E → Run V W E × Result (HarnessError E) Unit
  check none r = (r, ok tt)
  check (some e) r = fail_over e r

  -- a step of the harness whose error is reported by `fail_limit`
  unfoldable pub or_fail_limit :
      Run V W E
      → Harness V W E × Result LimitExceeded Unit
      → Run V W E × Result (HarnessError E) Unit
  or_fail_limit r (h, ok _) = (record r { harness = h }, ok tt)
  or_fail_limit r (h, err e) = fail_over e (record r { harness = h })

  unfoldable pub prepare_context : Env V W E → Act V W E (Unit {0})
  prepare_context v = on_run (λ r. check (History.ensure_context_limit v.json v.specs r.harness) r)

  -- the pending input that `take_steer_input` gave, if the mode allows it
  unfoldable pub take_steer : Env V W E → Act V W E (Option TurnInput)
  take_steer v s =
      let (c, input) = Run.take_steer_input s.control in
      if continues_same_turn v.steering_mode
      then pure input (record s { control = c })
      else pure none s

  unfoldable pub take_cancel : Act V W E Bool
  take_cancel s =
      let (c, cancelled) = Run.take_cancel_requested s.control in
      pure cancelled (record s { control = c })

  unfoldable pub read_steer : Act V W E Bool
  read_steer s = pure (Run.is_steer_requested s.control) s

  -- the three exits of `control_action` after the look at the cancel flag
  unfoldable pub apply_steer : Env V W E → Option TurnInput → Act V W E ControlAction
  apply_steer v (some input) = do
    on_run (λ r. or_fail_limit r (History.append_user_input input.text r.harness))
    modify (λ s. record s {
      execution = note_applied input.steer_request_id s.execution;
      final_text = [];
    })
    pure continue_turn
  apply_steer v none = do
    interfere v
    steered ← read_steer
    step ← read_step
    (if steered then finish step StopReason.steered else pure proceed)

  unfoldable pub control_action : Env V W E → Act V W E ControlAction
  control_action v = do
    interfere v
    cancelled ← take_cancel
    step ← read_step
    (if cancelled
        then finish step StopReason.cancelled
        else do interfere v; input ← take_steer v; apply_steer v input)

  -- the step's number, and the limit on it
  unfoldable pub next_step : Act V W E (Unit {0})
  next_step s =
      let step = saturating_add s.step 1 in
      let t = record s { step = step } in
      let max_steps = s.run.harness.config.max_steps in
      if ltb 0 max_steps && ltb max_steps step
      then finish (step - 1) StopReason.step_limit t
      else pure tt t
