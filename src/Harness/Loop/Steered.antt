-- ===== src/Harness/Loop/Steered.antt =====
-- crates/mini-agent-core/src/harness.rs: the looks at the run control, and the steps before a model
-- call, with the invariant of a run.
use mini_agent_harness.Prelude.{
  ℕ, ◌-◌, ◌<◌, ◌≤◌, ◌≡◌, ◌⊎◌, refl, ap, Text, Bool, true, false, Bool-cases, inl, inr, Option, none,
  some, List, [], ◌∷◌, ◌&&◌, ltb, saturating_add, arith, if◌then◌else◌,
}
use mini_agent_harness.Protocol.{
  Message, ContextInjectionRecord, ModelResponse, LimitExceeded, StopReason, TurnInput, user,
}
use mini_agent_harness.Session.State
use mini_agent_harness.Session.Settled.{IsSettled}
use mini_agent_harness.Session.Complete.{append-IsSettled}
use mini_agent_harness.Harness.Config.{HarnessConfig}
use mini_agent_harness.Harness.History
use mini_agent_harness.Harness.History.{check_limit}
use mini_agent_harness.Harness.Compact.{Run}
use mini_agent_harness.Harness.Loop.State.{
  Env, Loop, Flow, pure, modify, finish, interfere, announce_list, announce_injections,
}
use mini_agent_harness.Harness.Loop.Turn.{check_response}
use mini_agent_harness.Harness.Loop.Steer.{
  ControlAction, proceed, continue_turn, continues_same_turn, note_applied, fail_over, check,
  or_fail_limit, prepare_context, take_steer, take_cancel, read_steer, apply_steer, control_action,
  next_step,
}
use mini_agent_harness.Harness.Loop.Ensures.{
  At, Post, Ensures, Keeps, Stays, >>=-Ensures, >>-Ensures, >>-Keeps, if-Ensures, pure-Keeps,
  interfere-Keeps, observe-Keeps, finish-Post, on_run-Keeps,
}
use mini_agent_harness.Harness.Loop.Asked.{with_step, finish_here}

module _ {V W E : Type 0} (c : HarnessConfig) (start : ℕ) (v : Env V W E) where
  pub check-Stays :
      (e : Option LimitExceeded) (r : Run V W E) → Stays c start IsSettled r.harness (check e r)
  unfolding check fail_over
  check-Stays none r = (refl, refl, λ h. h)
  check-Stays (some e) r = tt

  pub prepare_context-Keeps : (k : ℕ) → Keeps c start k (prepare_context v)
  unfolding prepare_context
  prepare_context-Keeps k = on_run-Keeps c start k _ λ r. check-Stays _ r

  pub check_response-Keeps :
      (k : ℕ) (response : ModelResponse V) → Keeps c start k (check_response v response)
  unfolding check_response
  check_response-Keeps k response =
      >>-Keeps c start k _ _ (on_run-Keeps c start k _ λ r. check-Stays _ r)
        (on_run-Keeps c start k _ λ r. check-Stays _ r)

  push_checked-Stays :
      (e : Option LimitExceeded) (m : Message V) (r : Run V W E)
      → IsSettled (m ∷ [])
      → Stays c start IsSettled r.harness (or_fail_limit r (History.push_checked e m r.harness))
  unfolding or_fail_limit fail_over History.push_checked State.push
  push_checked-Stays none m r h =
      (refl, refl, λ settled. append-IsSettled r.harness.session.messages (m ∷ []) settled h)
  push_checked-Stays (some e) m r h = tt

  -- a `continue` comes in the mode that allows it only
  abbrev pub Controlled : ℕ → ControlAction → Loop V W E → Type 0
  Controlled k proceed s = At c start k s
  Controlled k continue_turn s = At c start k s × (continues_same_turn v.steering_mode ≡ true)

  take_steer-Ensures :
      (k : ℕ)
      → Ensures c start (At c start k) (take_steer v) (λ (input : Option TurnInput) s.
        At c start k s × ((input ≡ none) ⊎ (continues_same_turn v.steering_mode ≡ true)))
  unfolding take_steer pure
  take_steer-Ensures k s h = elim (Bool-cases (continues_same_turn v.steering_mode)) [
    | inl taken ↦ rw (take_steer, taken) (h, inr refl)
    | inr kept ↦ rw (take_steer, kept) (h, inl refl)
  ]

  apply_steer-Ensures :
      (k : ℕ) (input : Option TurnInput)
      → Ensures c start
          (λ s. At c start k s × ((input ≡ none) ⊎ (continues_same_turn v.steering_mode ≡ true)))
          (apply_steer v input)
          (Controlled k)
  unfolding apply_steer pure
  apply_steer-Ensures k none s (h, _) =
      >>-Ensures c start (Controlled k) (interfere v) _ (interfere-Keeps c start v k)
        (>>=-Ensures c start (Controlled k) read_steer _ reads λ steered.
          with_step c start v (Controlled k) k _ λ n.
            if-Ensures c start (Controlled k) steered _ _
              (finish_here c start v (Controlled k) k n StopReason.steered) λ s h. h.0)
        s h
    where
      reads : Keeps c start k (read_steer {V = V} {W = W} {E = E})
      reads s h = unfold read_steer pure in h
  apply_steer-Ensures k (some input) s (h, inl e) = absurd (ground (arith, e))
  apply_steer-Ensures k (some input) s (h, inr mode) =
      >>-Ensures c start (Controlled k) _ _ (on_run-Keeps c start k _ λ r. appended r)
        (>>-Ensures c start (Controlled k) _ _ sets λ s h. (h, mode)) s h
    where
      appended :
          (r : Run V W E)
          → Stays c start IsSettled r.harness
              (or_fail_limit r (History.append_user_input input.text r.harness))
      appended r = unfold History.append_user_input in push_checked-Stays _ (user input.text) r refl

      sets : Keeps c start k (
          modify (λ (s : Loop V W E). record s {
            execution = note_applied input.steer_request_id s.execution;
            final_text = [];
          }))
      sets s h = unfold modify in h

  pub control_action-Ensures :
      (k : ℕ) → Ensures c start (At c start k) (control_action v) (Controlled k)
  unfolding control_action
  control_action-Ensures k =
      >>-Ensures c start (Controlled k) (interfere v) _ (interfere-Keeps c start v k) (
        >>=-Ensures c start (Controlled k) take_cancel _ takes λ cancelled.
          with_step c start v (Controlled k) k _ λ n.
            if-Ensures c start (Controlled k) cancelled _ _
              (finish_here c start v (Controlled k) k n StopReason.cancelled)
              λ s h.
                >>-Ensures c start (Controlled k) (interfere v) _ (interfere-Keeps c start v k)
                  (>>=-Ensures c start (Controlled k) (take_steer v) _ (take_steer-Ensures k)
                    (apply_steer-Ensures k))
                  s h.0)
    where
      takes : Keeps c start k (take_cancel {V = V} {W = W} {E = E})
      takes s h = unfold take_cancel pure in h

-- a step that the limit allows
abbrev pub IsAllowed : HarnessConfig → ℕ → Type 0
IsAllowed c k = 0 < c.max_steps → k ≤ c.max_steps

module _ {V W E : Type 0} (c : HarnessConfig) (start : ℕ) where
  pub next_step-Ensures :
      (k : ℕ)
      → Ensures {V = V} {W = W} {E = E} c start
          (At c start k)
          next_step
          (λ _ s. At c start (saturating_add k 1) s × IsAllowed c (saturating_add k 1))
  unfolding next_step pure
  next_step-Ensures k s (settled, (distinct, config, step, below)) =
      go (ltb 0 max_steps && ltb max_steps (saturating_add s.step 1)) refl
    where
      max_steps : ℕ
      max_steps = s.run.harness.config.max_steps

      limit : max_steps ≡ c.max_steps
      limit = ap (λ (x : HarnessConfig). x.max_steps) config

      t : Loop V W E
      t = record s { step = saturating_add s.step 1 }

      go :
          (b : Bool)
          → (ltb 0 max_steps && ltb max_steps (saturating_add s.step 1)) ≡ b
          → let p : Loop V W E × Flow V E Unit =
              (if b
                then finish (saturating_add s.step 1 - 1) StopReason.step_limit t
                else pure tt t) in
            Post c start
              (λ _ s. At c start (saturating_add k 1) s × IsAllowed c (saturating_add k 1))
              p
      go true over =
          finish-Post c start
            (λ _ s. At c start (saturating_add k 1) s × IsAllowed c (saturating_add k 1))
            (saturating_add s.step 1 - 1) StopReason.step_limit t
            (λ some. omega (arith, below some, step)) settled
      go false within =
          let allowed : IsAllowed c (saturating_add k 1) =
            λ some. ground (arith, within, limit, step, some) in
          (
            (
              settled,
              (
                distinct,
                config,
                ap (λ n. saturating_add n 1) step,
                λ some. omega (arith, allowed some),
              ),
            ),
            allowed,
          )

  announce_list-Keeps :
      (k : ℕ) (p : List (Text × ContextInjectionRecord))
      → Keeps {V = V} {W = W} {E = E} c start k (announce_list p)
  unfolding announce_list modify
  announce_list-Keeps k [] = pure-Keeps c start k tt
  announce_list-Keeps k (p ∷ ps) = >>-Keeps c start k _ _ (λ s h. h) (observe-Keeps c start k _)

  pub announce_injections-Keeps :
      (k : ℕ) → Keeps {V = V} {W = W} {E = E} c start k announce_injections
  unfolding announce_injections
  announce_injections-Keeps k s h =
      announce_list-Keeps k s.run.harness.pending_context_injections s h
