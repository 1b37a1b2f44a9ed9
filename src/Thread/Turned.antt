-- ===== src/Thread/Turned.antt =====
-- crates/mini-agent-core/src/thread.rs: a whole Turn of a Thread, by way of the run of its harness.
use mathlib.Core.Path.{subst}
use mini_agent_harness.Prelude.{
  ℕ, suc, ◌<◌, ◌≡◌, refl, sym, ◌⊎◌, inl, inr, Text, Bool-cases, none, some, Option-cases,
}
use mini_agent_harness.Protocol.{ThreadStatus, TurnInput, is_start}
use mini_agent_harness.Protocol.Same.{same_input}
use mini_agent_harness.Prelude.{u64_max}
use mini_agent_harness.Session.Settled.{IsSettled}
use mini_agent_harness.Execution.{ExecutionCheckpoint}
use mini_agent_harness.Control.Run.{SteeringMode}
use mini_agent_harness.Harness.Config
use mini_agent_harness.Harness.Config.{Result, ok, err, Harness, HarnessConfig}
use mini_agent_harness.Harness.History
use mini_agent_harness.Harness.Loop.State.{Env, Loop, Flow, next, done, fail}
use mini_agent_harness.Harness.Loop.Start.{Resume}
use mini_agent_harness.Harness.Loop.Ensures.{HasDistinctCalls}
use mini_agent_harness.Harness.Loop.Resumed.{IsResumable, start_step}
use mini_agent_harness.Harness.Loop.Outcome.{HasEnded, run-HasEnded}
use mini_agent_harness.Thread.State.{
  Thread, ThreadError, TurnResult, begin_turn, begin_idle, finish_turn, status_for_outcome,
}
use mini_agent_harness.Thread.Envelopes.{Hooks, EnvelopeObserver}
use mini_agent_harness.Thread.Turn.{
  TurnExecutionOptions, TurnState, TurnAnswer, resume_idle, resume_turn, enter_turn, conclude,
  settle_turn, begin_run, prefer, opened, run_ready, refuse_skills, run_begun, run_if_entered,
  run_turn_with_events_and_preflight_and_journal_resume,
}

-- A Turn with a result left its Thread idle, as the last Turn, with the history of the outcome, whose
-- tool groups are complete, and the status of the outcome.
abbrev pub IsConcluded : {V W E : Type 0} → TurnState V W E → TurnResult V → Type 0
IsConcluded s result =
    (s.thread.status ≡ ThreadStatus.idle)
    × (s.thread.last_turn_id ≡ some result.id)
    × (result.status ≡ status_for_outcome result.outcome)
    × (result.outcome.messages ≡ s.thread.harness.session.messages)
    × IsSettled result.outcome.messages

-- An answer came; after an error the Thread is as it was, or idle, or failed.
abbrev pub IsTurned : {V W E : Type 0} → Thread V W E → TurnState V W E × TurnAnswer V E → Type 0
IsTurned t (s, none) = ⊥
IsTurned t (s, some (ok result)) = IsConcluded s result
IsTurned t (s, some (err e)) =
    (s.thread ≡ t)
    ⊎ ((s.thread.status ≡ ThreadStatus.idle) ⊎ (s.thread.status ≡ ThreadStatus.failed))

-- The Thread as it was, or with a Turn of that id that runs.
abbrev IsEntered :
    {V W E : Type 0} → Thread V W E → Thread V W E × Result (ThreadError E) Text → Type 0
IsEntered t (t', err e) = t' ≡ t
IsEntered t (t', ok id) = (t'.harness ≡ t.harness) × (t'.last_turn_id ≡ some id)

module _ {V W E : Type 0} where
  begin_idle-IsEntered : (input : TurnInput) (t : Thread V W E) → IsEntered t (begin_idle input t)
  unfolding begin_idle
  begin_idle-IsEntered input t = elim (Bool-cases (is_start input.mode)) [
    | inr other ↦ rw other refl
    | inl starts ↦ elim (Option-cases (History.validate_user_input input.text t.harness)) [
      | inl fits ↦ rw (starts, fits) (refl, refl)
      | inr (limit, long) ↦ rw (starts, long) refl
    ]
  ]

  resume_idle-IsEntered :
      (c : ExecutionCheckpoint V) (input : TurnInput) (t : Thread V W E)
      → IsEntered t (resume_idle c input t)
  unfolding resume_idle
  resume_idle-IsEntered c input t = elim (Bool-cases (same_input c.input input)) [
    | inr other ↦ rw other refl
    | inl same ↦ elim (Option-cases (History.validate_user_input input.text t.harness)) [
      | inl fits ↦ rw (same, fits) (refl, refl)
      | inr (limit, long) ↦ rw (same, long) refl
    ]
  ]

  -- a closed and a running Thread take no Turn
  by_status :
      (t : Thread V W E) (r : Thread V W E × Result (ThreadError E) Text)
      → IsEntered t r
      → (status : ThreadStatus)
      → IsEntered t (elim status [
        | ThreadStatus.closed ↦ (t, err ThreadError.is_closed)
        | ThreadStatus.running ↦ (t, err ThreadError.busy)
        | ThreadStatus.idle ↦ r
        | ThreadStatus.awaiting_input ↦ r
        | ThreadStatus.failed ↦ r
      ])
  by_status t r h ThreadStatus.closed = refl
  by_status t r h ThreadStatus.running = refl
  by_status t r h ThreadStatus.idle = h
  by_status t r h ThreadStatus.awaiting_input = h
  by_status t r h ThreadStatus.failed = h

  enter_turn-IsEntered :
      (resume : Resume V) (input : TurnInput) (t : Thread V W E)
      → IsEntered t (enter_turn resume input t)
  unfolding enter_turn begin_turn resume_turn
  enter_turn-IsEntered none input t =
      by_status t (begin_idle input t) (begin_idle-IsEntered input t) t.status
  enter_turn-IsEntered (some (c, batch)) input t =
      by_status t (resume_idle c input t) (resume_idle-IsEntered c input t) t.status

  settle_turn-IsTurned :
      (hooks : Hooks V) (id : Text) (o : EnvelopeObserver V) (s : TurnState V W E)
      (t : Thread V W E) (c : HarnessConfig) (start : ℕ)
      → s.thread.last_turn_id ≡ some id
      → (p : Loop V W E × Flow V E (Unit {0})) → HasEnded c start p
      → IsTurned t (settle_turn hooks id o s p)
  unfolding settle_turn conclude finish_turn
  settle_turn-IsTurned hooks id o s t c start last (l, next a) h = absurd h
  settle_turn-IsTurned hooks id o s t c start last (l, done outcome) h =
      (refl, last, refl, h.1, h.0)
  settle_turn-IsTurned hooks id o s t c start last (l, fail e) h = inr (inr refl)

module _ {V W E : Type 0} (v : Env V W E) (hooks : Hooks V) (input : TurnInput)
    (options : TurnExecutionOptions V) where
  -- what the run's theorem asks of a harness
  IsRunnable : Harness V W E → Type 0
  IsRunnable h =
      HasDistinctCalls h.model × (0 < h.config.max_steps) × (h.config.max_steps < u64_max)

  run_begun-IsTurned :
      (id : Text) (s : TurnState V W E) (t : Thread V W E)
      → IsRunnable s.thread.harness
      → s.thread.last_turn_id ≡ some id
      → IsResumable options.resume
      → v.steering_mode ≡ SteeringMode.stop_at_checkpoint
      → IsTurned t (run_begun v hooks input options (suc s.thread.harness.config.max_steps) id s)
  unfolding run_begun refuse_skills run_ready begin_run prefer Config.set_model_preferences
      IsRunnable
  run_begun-IsTurned id s t (distinct, limited, small) last good stops =
      let s' = record s { thread = prefer input s.thread } in
      elim (Option-cases options.preflight_error) [
        | inr (error, failed) ↦ rw failed (inr (inl refl))
        | inl passed ↦ rw passed (
            settle_turn-IsTurned hooks id (opened hooks input options.prelude id s'.thread) s' t
              s.thread.harness.config (start_step options.resume) last
              (run_ready v input options (suc s.thread.harness.config.max_steps) id s')
              (run-HasEnded (begin_run id s'.thread s.world v).0 input.text options.resume
                (begin_run id s'.thread s.world v).1 s.control s.journal
                (some (record {
                  turn_id = id;
                  input = input;
                  applied_steer_request_ids = options.applied_steer_request_ids;
                }))
                distinct good limited small stops))
      ]

  run_if_entered-IsTurned :
      (s : TurnState V W E) (r : Thread V W E × Result (ThreadError E) Text)
      → IsEntered s.thread r
      → IsRunnable s.thread.harness
      → IsResumable options.resume
      → v.steering_mode ≡ SteeringMode.stop_at_checkpoint
      → IsTurned s.thread
          (run_if_entered v hooks input options (suc s.thread.harness.config.max_steps) s r)
  unfolding run_if_entered
  run_if_entered-IsTurned s (t, err e) same able good stops = inl same
  run_if_entered-IsTurned s (t, ok id) (same, last) able good stops =
      subst
        (λ h.
          IsTurned s.thread
            (run_begun v hooks input options (suc h.config.max_steps) id (record s { thread = t })))
        same
        (run_begun-IsTurned id (record s { thread = t }) s.thread (subst IsRunnable (sym same) able)
          last good stops)

  -- With a step limit of n, at least 1 and below the largest `usize`, and where steering stops the
  -- Turn, a Turn ends within n + 1 rounds of the loop. With a result, the Thread is idle, its last Turn
  -- is the result's, the status is the outcome's, and the outcome has the harness's history with
  -- complete tool groups; with an error the Thread is as it was, or idle, or failed. The ids of the
  -- calls in each response of the model are distinct, and a batch that was pending has the calls of
  -- its intent, with distinct ids.
  pub run_turn-IsTurned :
      (s : TurnState V W E)
      → HasDistinctCalls s.thread.harness.model
      → IsResumable options.resume
      → 0 < s.thread.harness.config.max_steps
      → s.thread.harness.config.max_steps < u64_max
      → v.steering_mode ≡ SteeringMode.stop_at_checkpoint
      → IsTurned s.thread (
          run_turn_with_events_and_preflight_and_journal_resume v hooks input options
            (suc s.thread.harness.config.max_steps)
            s)
  unfolding run_turn_with_events_and_preflight_and_journal_resume IsRunnable
  run_turn-IsTurned s distinct good limited small stops =
      run_if_entered-IsTurned s (enter_turn options.resume input s.thread)
        (enter_turn-IsEntered options.resume input s.thread) (distinct, limited, small) good stops
