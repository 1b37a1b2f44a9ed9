-- ===== src/Host/Goal/Durable.antt =====
-- crates/mini-agent-host/src/goal.rs: the goal that stands in the session's directory, and what the
-- operations make of it where files can be written.
use mini_agent_harness.Prelude.{
  ℕ, ◌≡◌, refl, inl, inr, ◌∙◌, true, Option, some, Bool-cases, if◌then◌else◌,
}
use mini_agent_harness.Host.Goal.State.{GoalState, VerifierVerdict, is_running, advanced}
use mini_agent_harness.Host.Goal.Files.{
  Io, Files, Writable, Result, ok, ◌>>=◌, ◌>>◌, pure, after, current_time_ms, load_goal_state,
  loaded,
}
use mini_agent_harness.Host.Goal.Store.{found, advance_running, advance_goal_milestone}

abbrev pub Holds : {D : Type 0} → Files D → D → GoalState → Type 0
Holds F d s = (F.state_exists d ≡ true) × (F.read_state d ≡ ok s)

-- what one more round makes of a goal
unfoldable pub stepped : Option VerifierVerdict → ℕ → GoalState → GoalState
unfolding is_running advanced
stepped verdict now s = if is_running s.status then advanced verdict now s else s

module _ {D : Type 0} (F : Files D) where
  pub load-Holds : {d : D} {s : GoalState} → Holds F d s → load_goal_state F d ≡ (d, ok (some s))
  unfolding load_goal_state loaded
  load-Holds (e, r) = rw (e, r)

  pub write-Holds : Writable F → (s : GoalState) (d : D) → Holds F (F.write_state s d).0 s
  write-Holds W s d = (W.exists s d, W.reads s d)

  pub tick-Holds : Writable F → {d : D} {s : GoalState} → Holds F d s → Holds F (F.now d).0 s
  tick-Holds W {d} (e, r) = (W.ticks_exist d ∙ e, W.ticks_read d ∙ r)

  -- A write answers, and what follows it runs on the disk that holds the state.
  pub write-then :
      Writable F
      → {B : Type 0} (s : GoalState) (k : Io D B) (d : D)
      → (F.write_state s >> k) d ≡ k (F.write_state s d).0
  unfolding ◌>>◌ ◌>>=◌ after
  write-then W s k d = go (F.write_state s d) (W.written s d)
    where
      go : (w : D × Result (Unit {0})) → w.1 ≡ ok tt → after w (λ _. k) ≡ k w.0
      go (d1, r) h = rw h

  pub advance-Holds :
      Writable F
      → {d : D} {s : GoalState} (v : Option VerifierVerdict) → Holds F d s
      → (now : ℕ) × (d' : D) × (advance_goal_milestone F v d ≡ (d', ok (stepped v now s)))
        × Holds F d' (stepped v now s)
  unfolding advance_goal_milestone ◌>>=◌ after found pure advance_running stepped current_time_ms
  advance-Holds W {d} {s} v (e, r) =
      rw (load-Holds {d = d} {s = s} (e, r)) (elim (Bool-cases (is_running s.status)) [
        | inl on ↦
            let t = advanced v (F.now d).1 s in
            rw on (
              (F.now d).1,
              (F.write_state t (F.now d).0).0,
              write-then W t (pure t) (F.now d).0,
              write-Holds W t (F.now d).0,
            )
        | inr off ↦ rw off (0, d, refl, (e, r))
      ])
