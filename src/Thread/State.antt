-- ===== src/Thread/State.antt =====
-- crates/mini-agent-core/src/thread.rs: `Thread` and the operations around a Turn's run.
use mini_agent_harness.Prelude.{
  ℕ, Text, Bool, false, Option, none, some, ◌++◌, ◌∷◌, max, codes, text_eq, saturating_add,
  if◌then◌else◌,
}
use mini_agent_harness.Protocol.{
  Json, TurnInput, TurnInputMode, ThreadStatus, TurnStatus, StopReason, is_start,
}
use mini_agent_harness.Session.State.{SessionState}
use mini_agent_harness.Compaction.Parts.{decimal}
use mini_agent_harness.Control.Run.{RunControl, request_cancel}
use mini_agent_harness.Harness.Config.{Result, ok, err, HarnessError, Harness, RunOutcome}
use mini_agent_harness.Harness.History

pub data ThreadError (E : Type 0) : Type 0 where
  harness_failed : HarnessError E → ThreadError E
  busy is_closed no_active_turn : ThreadError E
  turn_not_active : Text → ThreadError E
  invalid_input_mode : TurnInputMode → ThreadError E
  skill_activation : Text → ThreadError E

pub record TurnResult (V : Type 0) : Type 0 where
  pub id : Text
  pub status : TurnStatus
  pub outcome : RunOutcome V

-- The numbers are `u64`.
pub record ThreadCheckpoint (V : Type 0) : Type 0 where
  pub thread_id : Text
  pub session : SessionState V
  pub status : ThreadStatus
  pub next_turn_number : ℕ
  pub last_turn_id : Option Text
  pub next_event_sequence : ℕ

pub record Thread (V W E : Type 0) : Type 0 where
  pub id : Text
  pub harness : Harness V W E
  pub status : ThreadStatus
  pub next_turn_number : ℕ
  pub last_turn_id : Option Text
  pub next_event_sequence : ℕ

unfoldable pub status_for_outcome : {V : Type 0} → RunOutcome V → TurnStatus
status_for_outcome outcome = elim outcome.stop_reason [
  | StopReason.completed ↦ TurnStatus.completed
  | StopReason.step_limit ↦ TurnStatus.step_limit
  | StopReason.steered ↦ TurnStatus.steered
  | StopReason.cancelled ↦ TurnStatus.cancelled
]

-- `self.last_turn_id.as_ref() == Some(&id)`
abbrev pub is_turn : Option Text → Text → Bool
is_turn none id = false
is_turn (some last) id = text_eq last id

module _ {V W E : Type 0} where
  unfoldable pub new : Text → Harness V W E → Thread V W E
  new id harness = record {
    id = id;
    harness = harness;
    status = ThreadStatus.idle;
    next_turn_number = 1;
    last_turn_id = none;
    next_event_sequence = 1;
  }

  unfoldable pub set_id : Text → Thread V W E → Thread V W E
  set_id id t =
      if text_eq t.id id
      then t
      else record t { id = id; next_turn_number = 1; last_turn_id = none; next_event_sequence = 1 }

  unfoldable pub set_next_turn_number : ℕ → Thread V W E → Thread V W E
  set_next_turn_number next t = record t { next_turn_number = max next 1 }

  unfoldable pub next_turn_id : Thread V W E → Text
  next_turn_id t = codes "turn-" ++ (t.id ++ (b'-' ∷ decimal t.next_turn_number))

  unfoldable pub settled_checkpoint : Thread V W E → ThreadCheckpoint V
  settled_checkpoint t = record {
    thread_id = t.id;
    session = t.harness.session;
    status = t.status;
    next_turn_number = t.next_turn_number;
    last_turn_id = t.last_turn_id;
    next_event_sequence = t.next_event_sequence;
  }

  unfoldable pub checkpoint : Thread V W E → Result (ThreadError E) (ThreadCheckpoint V)
  unfolding settled_checkpoint
  checkpoint t = elim t.status [
    | ThreadStatus.running ↦ err ThreadError.busy
    | ThreadStatus.idle ↦ ok (settled_checkpoint t)
    | ThreadStatus.awaiting_input ↦ ok (settled_checkpoint t)
    | ThreadStatus.failed ↦ ok (settled_checkpoint t)
    | ThreadStatus.closed ↦ ok (settled_checkpoint t)
  ]

  -- `self.harness.restore_session(..)?` and the fields
  unfoldable pub restored :
      Json V → ThreadCheckpoint V → Thread V W E → Thread V W E × Result (ThreadError E) Unit
  restored J c t =
      let (harness, answer) = History.restore_session J c.session t.harness in
      elim answer [
        | err e ↦ (
          record t { harness = harness },
          err (ThreadError.harness_failed (HarnessError.limit e)),
        )
        | ok _ ↦ (
          record {
            id = c.thread_id;
            harness = harness;
            status = c.status;
            next_turn_number = max c.next_turn_number 1;
            last_turn_id = c.last_turn_id;
            next_event_sequence = max c.next_event_sequence 1;
          },
          ok tt,
        )
      ]

  unfoldable pub restore_checkpoint :
      Json V → ThreadCheckpoint V → Thread V W E → Thread V W E × Result (ThreadError E) Unit
  restore_checkpoint J c t = elim t.status [
    | ThreadStatus.running ↦ (t, err ThreadError.busy)
    | ThreadStatus.idle ↦ restored J c t
    | ThreadStatus.awaiting_input ↦ restored J c t
    | ThreadStatus.failed ↦ restored J c t
    | ThreadStatus.closed ↦ restored J c t
  ]

  unfoldable pub close : Thread V W E → Thread V W E × Result (ThreadError E) Unit
  close t = elim t.status [
    | ThreadStatus.running ↦ (t, err ThreadError.busy)
    | ThreadStatus.idle ↦ (record t { status = ThreadStatus.closed }, ok tt)
    | ThreadStatus.awaiting_input ↦ (record t { status = ThreadStatus.closed }, ok tt)
    | ThreadStatus.failed ↦ (record t { status = ThreadStatus.closed }, ok tt)
    | ThreadStatus.closed ↦ (record t { status = ThreadStatus.closed }, ok tt)
  ]

  -- The Thread is only read; the control is what changes.
  unfoldable pub cancel_turn :
      Text → Thread V W E → RunControl → RunControl × Result (ThreadError E) Unit
  cancel_turn turn_id t control = elim t.status [
    | ThreadStatus.closed ↦ (control, err ThreadError.is_closed)
    | ThreadStatus.idle ↦ (control, err ThreadError.no_active_turn)
    | ThreadStatus.awaiting_input ↦ (control, err ThreadError.no_active_turn)
    | ThreadStatus.failed ↦ (control, err ThreadError.no_active_turn)
    | ThreadStatus.running ↦
        if is_turn t.last_turn_id turn_id
        then ((request_cancel control).0, ok tt)
        else (control, err (ThreadError.turn_not_active turn_id))
  ]

  -- `begin_turn` on a Thread that is neither closed nor running
  unfoldable pub begin_idle : TurnInput → Thread V W E → Thread V W E × Result (ThreadError E) Text
  begin_idle input t =
      if is_start input.mode
      then elim (History.validate_user_input input.text t.harness) [
        | some limit ↦ (t, err (ThreadError.harness_failed (HarnessError.limit limit)))
        | none ↦
            let id = next_turn_id t in
            (
              record t {
                next_turn_number = saturating_add t.next_turn_number 1;
                last_turn_id = some id;
                status = ThreadStatus.running;
              },
              ok id,
            )
      ]
      else (t, err (ThreadError.invalid_input_mode input.mode))

  unfoldable pub begin_turn : TurnInput → Thread V W E → Thread V W E × Result (ThreadError E) Text
  begin_turn input t = elim t.status [
    | ThreadStatus.closed ↦ (t, err ThreadError.is_closed)
    | ThreadStatus.running ↦ (t, err ThreadError.busy)
    | ThreadStatus.idle ↦ begin_idle input t
    | ThreadStatus.awaiting_input ↦ begin_idle input t
    | ThreadStatus.failed ↦ begin_idle input t
  ]

  unfoldable pub finish_turn :
      Text
      → Result (HarnessError E) (RunOutcome V)
      → Thread V W E
      → Thread V W E × Result (ThreadError E) (TurnResult V)
  finish_turn id (ok outcome) t = (
    record t { status = ThreadStatus.idle },
    ok (record { id = id; status = status_for_outcome outcome; outcome = outcome }),
  )
  finish_turn id (err e) t =
      (record t { status = ThreadStatus.failed }, err (ThreadError.harness_failed e))
