-- ===== src/Host/Goal/Stops.antt =====
-- crates/mini-agent-host/src/goal.rs: the rounds of a goal, one after another.
use mini_agent_harness.Prelude.{
  ℕ, ◌+◌, ◌≤◌, ◌≡◌, refl, ap, arith, inl, inr, Text, true, false, Option, none, some, List, [], ◌∷◌,
  Bool-cases, length, leb,
}
use mini_agent_harness.Host.Goal.State.{
  GoalLimits, GoalState, VerifierVerdict, is_running, is_approved, advanced, judged, approved_goal,
  limited,
}
use mini_agent_harness.Host.Goal.Files.{Io, Files, Writable, Result, ok, err, ◌>>=◌, pure, after}
use mini_agent_harness.Host.Goal.Begun.{OnOk, IsFresh, set_goal-Begun}
use mini_agent_harness.Host.Goal.Store.{set_goal, advance_goal_milestone}
use mini_agent_harness.Host.Goal.Durable.{Holds, stepped, advance-Holds}

-- A running goal is at one of its milestones, and has used at most one round for each milestone it
-- passed beyond those of its loop limit.
record IsBounded (s : GoalState) : Type 0 where
  milestone : 1 ≤ s.current_milestone
  within : s.current_milestone ≤ s.total_milestones
  rounds : s.loop_count + 2 ≤ s.max_loops + s.current_milestone

abbrev IsOpen : GoalState → Type 0
IsOpen s = is_running s.status ≡ true → IsBounded s

-- what a round keeps, and that it counts where the goal still runs
record IsNext (s t : GoalState) : Type 0 where
  bounded : IsOpen t
  total : t.total_milestones ≡ s.total_milestones
  max : t.max_loops ≡ s.max_loops
  counts : is_running t.status ≡ true → t.loop_count ≡ s.loop_count + 1

approved-IsNext :
    (s t : GoalState)
    → IsBounded s
    → t.loop_count ≡ s.loop_count + 1
    → t.max_loops ≡ s.max_loops
    → t.total_milestones ≡ s.total_milestones
    → t.current_milestone ≡ s.current_milestone
    → IsNext s (approved_goal t)
unfolding approved_goal is_running
approved-IsNext s t b l m n c = elim (Bool-cases (leb t.total_milestones t.current_milestone)) [
  | inl last ↦ rw last (record { bounded = λ h. cc; total = n; max = m; counts = λ h. cc })
  | inr more ↦ rw more (record {
    bounded = λ h. record {
      milestone = omega arith;
      within = ground (arith, more, n, c);
      rounds = omega (arith, b.rounds, l, m, c);
    };
    total = n;
    max = m;
    counts = λ h. l;
  })
]

limited-IsNext :
    (s t : GoalState)
    → IsBounded s
    → t.loop_count ≡ s.loop_count + 1
    → t.max_loops ≡ s.max_loops
    → t.total_milestones ≡ s.total_milestones
    → t.current_milestone ≡ s.current_milestone
    → IsNext s (limited t)
unfolding limited is_running
limited-IsNext s t b l m n c = elim (Bool-cases (leb t.max_loops t.loop_count)) [
  | inl last ↦ rw last (record { bounded = λ h. cc; total = n; max = m; counts = λ h. cc })
  | inr more ↦ rw more (record {
    bounded = λ h. record {
      milestone = omega (arith, b.milestone, c);
      within = omega (arith, b.within, c, n);
      rounds = ground (arith, more, b.milestone, c);
    };
    total = n;
    max = m;
    counts = λ h. l;
  })
]

stepped-IsNext :
    (v : Option VerifierVerdict) (now : ℕ) (s : GoalState) → IsOpen s → IsNext s (stepped v now s)
unfolding stepped advanced judged
stepped-IsNext v now s b = elim (Bool-cases (is_running s.status)) [
  | inl on ↦ rw on (go v (b on))
  | inr off ↦ rw off (record { bounded = b; total = refl; max = refl; counts = λ h. cc })
]
  where
    count : GoalState
    count = record s { loop_count = s.loop_count + 1 }

    stamp :
        (t : GoalState)
        → IsNext s t
        → IsNext s (record t {
          updated_at_ms = now;
          active_turn_id = none;
          active_turn_settled = false;
          last_error = none;
        })
    stamp t n = record {
      bounded = λ h.
          let m = n.bounded h in
          record { milestone = m.milestone; within = m.within; rounds = m.rounds };
      total = n.total;
      max = n.max;
      counts = n.counts;
    }

    go : (v : Option VerifierVerdict) → IsBounded s → IsNext s (advanced v now s)
    go none b = stamp _ (limited-IsNext s count b refl refl refl refl)
    go (some v) b = elim (Bool-cases (is_approved v.outcome)) [
      | inl pass ↦ rw pass (stamp _ (approved-IsNext s _ b refl refl refl refl))
      | inr refused ↦ rw refused (stamp _ (limited-IsNext s _ b refl refl refl refl))
    ]

running_before :
    (v : Option VerifierVerdict) (now : ℕ) (s : GoalState)
    → is_running (stepped v now s).status ≡ true
    → is_running s.status ≡ true
unfolding stepped
running_before v now s h = elim (Bool-cases (is_running s.status)) [
  | inl on ↦ on
  | inr off ↦ absurd (ground (arith, h, off))
]

-- one round after another, each with the verdict it is given
unfoldable pub advance_all :
    {D : Type 0} → Files D → List (Option VerifierVerdict) → Io D (Unit {0})
unfolding ◌>>=◌ pure
advance_all F [] = pure tt
advance_all F (v ∷ vs) = advance_goal_milestone F v >>= λ _. advance_all F vs

-- the action succeeded and left a goal that no longer runs
abbrev pub HasStopped : {D : Type 0} → Files D → D × Result (Unit {0}) → Type 0
HasStopped F (d, r) = (r ≡ ok tt) × ((t : GoalState) × Holds F d t × (is_running t.status ≡ false))

advance_all-stops :
    {D : Type 0} (F : Files D)
    → Writable F
    → (vs : List (Option VerifierVerdict)) (s : GoalState) (d : D) → Holds F d s
    → IsOpen s
    → (is_running s.status ≡ true → s.max_loops + s.total_milestones ≤ s.loop_count + length vs + 1)
    → HasStopped F (advance_all F vs d)
unfolding advance_all ◌>>=◌ after pure
advance_all-stops F W [] s d h b n = elim (Bool-cases (is_running s.status)) [
  | inl on ↦ absurd (omega (arith, (b on).within, (b on).rounds, n on))
  | inr off ↦ (refl, (s, h, off))
]
advance_all-stops F W (v ∷ vs) s d h b n =
    let (now, d', e, h') = advance-Holds F W v h in
    let m = stepped-IsNext v now s b in
    rw e (
      advance_all-stops F W vs (stepped v now s) d' h' m.bounded
        λ on. omega (arith, n (running_before v now s on), m.counts on, m.total, m.max))

-- A goal stops: where the session's files can be written, after a goal was set, as many rounds as its
-- loop limit and two more, whatever the verdicts, succeed and leave a goal that no longer runs.
pub set_goal-Stops :
    {D : Type 0} (F : Files D)
    → Writable F
    → (limits : GoalLimits) (objective : Text) (budget : Option ℕ) (d : D) (s : GoalState)
      (verdicts : List (Option VerifierVerdict))
    → (set_goal F limits objective budget d).1 ≡ ok s
    → s.max_loops + 2 ≤ length verdicts
    → HasStopped F (advance_all F verdicts (set_goal F limits objective budget d).0)
set_goal-Stops {D} F W limits objective budget d s verdicts =
    go (set_goal F limits objective budget d) (set_goal-Begun F W limits objective budget d)
  where
    go :
        (r : D × Result GoalState)
        → OnOk (λ d' s. Holds F d' s × IsFresh s) r
        → r.1 ≡ ok s
        → s.max_loops + 2 ≤ length verdicts
        → HasStopped F (advance_all F verdicts r.0)
    go (d', ok a) (h, fresh) e n =
        let same : a ≡ s = cc in
        advance_all-stops F W verdicts a d' h
          (λ _. record {
            milestone = omega (arith, fresh.first);
            within = omega (arith, fresh.first, fresh.total);
            rounds = omega (arith, fresh.first, fresh.loops, fresh.limit);
          })
          (λ _. omega (arith, fresh.total, fresh.loops, ap (λ g. g.max_loops) same, n))
    go (d', err e') h e n = absurd cc
