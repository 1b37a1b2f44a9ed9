-- ===== src/Host/Goal/Budget.antt =====
-- crates/mini-agent-host/src/goal.rs: what is recorded of a Turn, and the token budget.
use mini_agent_harness.Prelude.{
  ℕ, ◌+◌, ◌<◌, ◌≡◌, ◌↔◌, refl, arith, inl, inr, Text, true, false, Option, none, some, Bool-cases,
  min,
}
use mini_agent_harness.Host.Goal.State.{
  GoalState, is_running, is_addressed, is_exhausted, usage_recorded, i64_max,
}
use mini_agent_harness.Host.Goal.Files.{Files, Writable, ok, ◌>>=◌, pure, after, current_time_ms}
use mini_agent_harness.Host.Goal.Update.{
  saved, update_loaded, update_goal_state, stamped, update_if_addressed, update_running_goal,
  record_goal_usage,
}
use mini_agent_harness.Host.Goal.Durable.{Holds, load-Holds, write-then, write-Holds}

module _ {D : Type 0} (F : Files D) where
  pub update_running_goal-stale :
      {d : D} {s : GoalState}
      → Holds F d s
      → (goal_id : Text) (turn_id : Option Text) (u : GoalState → GoalState)
      → is_addressed goal_id turn_id s ≡ false
      → update_running_goal F goal_id turn_id u d ≡ (d, ok none)
  unfolding update_running_goal update_goal_state ◌>>=◌ after update_loaded update_if_addressed pure
      saved
  update_running_goal-stale {d} {s} h goal_id turn_id u stale =
      rw (load-Holds F {d = d} {s = s} h, stale)

  pub update_running_goal-Holds :
      Writable F
      → {d : D} {s : GoalState} → Holds F d s
      → (goal_id : Text) (turn_id : Option Text) (u : GoalState → GoalState)
      → is_addressed goal_id turn_id s ≡ true
      → (now : ℕ) × (d' : D) × (update_running_goal F goal_id turn_id u d
          ≡ (d', ok (some (record (u s) { updated_at_ms = now }))))
        × Holds F d' (record (u s) { updated_at_ms = now })
  unfolding update_running_goal update_goal_state ◌>>=◌ after update_loaded update_if_addressed pure
      saved stamped current_time_ms
  update_running_goal-Holds W {d} {s} h goal_id turn_id u mine =
      let t : GoalState = record (u s) { updated_at_ms = (F.now d).1 } in
      rw (load-Holds F {d = d} {s = s} h, mine)
        (
          (F.now d).1,
          (F.write_state t (F.now d).0).0,
          write-then F W t (pure (some t)) (F.now d).0,
          write-Holds F W t (F.now d).0,
        )

abbrev pub IsWithin : Option ℕ → ℕ → Type 0
IsWithin none used = Unit {0}
IsWithin (some budget) used = used < budget

-- the state counts the tokens, and runs on exactly while they are below its budget
pub record IsCounted (tokens : ℕ) (s t : GoalState) : Type 0 where
  pub used : t.tokens_used ≡ min (s.tokens_used + tokens) i64_max
  pub budget : t.token_budget ≡ s.token_budget
  pub runs : (is_running t.status ≡ true) ↔ IsWithin s.token_budget t.tokens_used

IsWithin-iff : (b : Option ℕ) (used : ℕ) → (is_exhausted b used ≡ false) ↔ IsWithin b used
unfolding is_exhausted
IsWithin-iff none used = (λ _. tt, λ _. refl)
IsWithin-iff (some b) used = ground arith

pub usage_recorded-IsCounted :
    (tokens : ℕ) (s : GoalState)
    → is_running s.status ≡ true
    → IsCounted tokens s (usage_recorded tokens s)
unfolding usage_recorded is_running
usage_recorded-IsCounted tokens s on = elim (Bool-cases (is_exhausted s.token_budget used)) [
  | inl out ↦
      rw out
        (record { used = counts; budget = refl; runs = (λ h. absurd cc, λ w. absurd (over out w)) })
  | inr left ↦ rw left (record {
    used = counts;
    budget = refl;
    runs = (λ _. (IsWithin-iff s.token_budget used).0 left, λ _. on);
  })
]
  where
    used : ℕ
    used = min (s.tokens_used + min tokens i64_max) i64_max

    counts : used ≡ min (s.tokens_used + tokens) i64_max
    counts = ground arith

    over : is_exhausted s.token_budget used ≡ true → IsWithin s.token_budget used → ⊥
    over out w = let h = (IsWithin-iff s.token_budget used).1 w in cc

pub is_running_of_addressed :
    (goal_id : Text) (turn_id : Option Text) (s : GoalState)
    → is_addressed goal_id turn_id s ≡ true
    → is_running s.status ≡ true
unfolding is_addressed
is_running_of_addressed goal_id turn_id s h = ground (arith, h)

-- Where the session's files can be written, recording the tokens of the goal's Turn adds them to its
-- count, at most the largest i64, on the disk as in the answer, and the goal runs on exactly where the
-- count is below its budget or it has none.
pub record_goal_usage-Counted :
    {D : Type 0} (F : Files D)
    → Writable F
    → {d : D} {s : GoalState} → Holds F d s
    → (goal_id turn_id : Text) (tokens : ℕ) → is_addressed goal_id (some turn_id) s ≡ true
    → (t : GoalState) × (d' : D) × (record_goal_usage F goal_id turn_id tokens d
        ≡ (d', ok (some t)))
      × Holds F d' t
      × IsCounted tokens s t
unfolding record_goal_usage
record_goal_usage-Counted F W {d} {s} h goal_id turn_id tokens mine =
    let (now, d', e, kept) =
      update_running_goal-Holds F W {d = d} {s = s} h goal_id (some turn_id) (usage_recorded tokens)
        mine in
    let c =
      usage_recorded-IsCounted tokens s (is_running_of_addressed goal_id (some turn_id) s mine) in
    (
      record (usage_recorded tokens s) { updated_at_ms = now },
      d',
      e,
      kept,
      record { used = c.used; budget = c.budget; runs = c.runs },
    )
