-- ===== src/Host/Goal/Begun.antt =====
-- crates/mini-agent-host/src/goal.rs: what a new goal is, on the disk and in the answer.
use mini_agent_harness.Prelude.{
  ℕ, ◌≤◌, ◌≡◌, refl, inl, inr, Text, Option, Bool-cases, arith, ◌++◌, codes, ltb, length,
}
use mini_agent_harness.Host.Goal.State.{GoalLimits, GoalState, new_goal}
use mini_agent_harness.Host.Goal.Files.{
  Io, Files, Writable, Result, ok, err, ◌>>=◌, ◌>>◌, pure, fail, after, current_time_ms,
  IoErrorKind,
}
use mini_agent_harness.Host.Goal.Store.{
  initial_plan, set_goal, is_refused_budget, init_goal_workspace_with_limits,
  max_goal_objective_bytes,
}
use mini_agent_harness.Compaction.Parts.{decimal}
use mini_agent_harness.Host.Goal.Durable.{Holds, write-Holds, write-then}

-- The result of an action has the property, unless it is an error.
abbrev pub OnOk : {D A : Type 0} → (D → A → Type 0) → D × Result A → Type 0
OnOk P (d, ok a) = P d a
OnOk P (d, err e) = Unit {0}

-- Wherever the action starts, its answer has the property.
record Ensures {D A : Type 0} (P : D → A → Type 0) (m : Io D A) : Type 0 where
  at : (d : D) → OnOk P (m d)

module _ {D : Type 0} where
  any-OnOk : {A : Type 0} (r : D × Result A) → OnOk (λ _ _. Unit {0}) r
  any-OnOk (d, ok a) = tt
  any-OnOk (d, err e) = tt

  after-OnOk :
      {A B : Type 0} (Q : D → A → Type 0) (P : D → B → Type 0) (f : A → Io D B) (r : D × Result A)
      → OnOk Q r
      → ((d : D) (a : A) → Q d a → OnOk P (f a d))
      → OnOk P (after r f)
  unfolding after
  after-OnOk Q P f (d, ok a) q h = h d a q
  after-OnOk Q P f (d, err e) q h = tt

  -- whatever the first action answers
  bind-Ensures :
      {A B : Type 0} (P : D → B → Type 0) (m : Io D A) (f : A → Io D B)
      → ((a : A) → Ensures P (f a))
      → Ensures P (m >>= f)
  unfolding ◌>>=◌
  bind-Ensures P m f h = record {
    at = λ d. after-OnOk (λ _ _. Unit {0}) P f (m d) (any-OnOk (m d)) λ d' a _. (h a).at d';
  }

  then-Ensures :
      {B : Type 0} (P : D → B → Type 0) (m : Io D (Unit {0})) (k : Io D B)
      → Ensures P k
      → Ensures P (m >> k)
  unfolding ◌>>◌
  then-Ensures P m k h = bind-Ensures P m (λ _. k) λ _. h

  pure-OnOk : {A : Type 0} (P : D → A → Type 0) (a : A) (d : D) → P d a → OnOk P (pure a d)
  unfolding pure
  pure-OnOk P a d h = h

  pure-Ensures : {A : Type 0} (P : D → A → Type 0) (a : A) → ((d : D) → P d a) → Ensures P (pure a)
  unfolding pure
  pure-Ensures P a h = record { at = h }

  fail-Ensures :
      {A : Type 0} (P : D → A → Type 0) (kind : IoErrorKind) (t : Text) → Ensures P (fail kind t)
  unfolding fail
  fail-Ensures P kind t = record { at = λ d. tt }

-- a goal at its first milestone that has used no round
pub record IsFresh (s : GoalState) : Type 0 where
  pub loops : s.loop_count ≡ 0
  pub first : s.current_milestone ≡ 1
  pub total : s.total_milestones ≡ 3
  pub limit : 1 ≤ s.max_loops

new_goal-IsFresh :
    (id objective : Text) (limits : GoalLimits) (now : ℕ)
    → IsFresh (new_goal id objective limits now)
unfolding new_goal
new_goal-IsFresh id objective limits now = record {
  loops = refl;
  first = refl;
  total = refl;
  limit = ground arith;
}

module _ {D : Type 0} (F : Files D) where
  init-IsFresh :
      (objective : Text) (limits : GoalLimits)
      → Ensures (λ _ s. IsFresh s) (init_goal_workspace_with_limits F objective limits)
  unfolding init_goal_workspace_with_limits
  init-IsFresh objective limits =
      elim (Bool-cases (ltb max_goal_objective_bytes (length objective))) [
        | inl long ↦ rw long (fail-Ensures _ _ _)
        | inr fits ↦ rw fits (
            then-Ensures _ F.create_goal_dir _ (
              bind-Ensures _ (current_time_ms F) _ λ id_ms.
                bind-Ensures _ (current_time_ms F) _ λ created.
                  let s = new_goal (codes "g_" ++ decimal id_ms) objective limits created in
                  then-Ensures _ (F.write_state s) _ (
                    then-Ensures _ (initial_plan F objective) _ (
                      pure-Ensures _ s λ _.
                        new_goal-IsFresh (codes "g_" ++ decimal id_ms) objective limits created))))
      ]

  pub set_goal-Begun :
      Writable F
      → (limits : GoalLimits) (objective : Text) (budget : Option ℕ) (d : D)
      → OnOk (λ d' s. Holds F d' s × IsFresh s) (set_goal F limits objective budget d)
  unfolding set_goal ◌>>=◌ fail
  set_goal-Begun W limits objective budget d = elim (Bool-cases (is_refused_budget budget)) [
    | inl refused ↦ rw refused tt
    | inr taken ↦ rw taken (
        after-OnOk (λ _ s. IsFresh s) (λ d' s. Holds F d' s × IsFresh s)
          (λ s. let t = record s { token_budget = budget } in F.write_state t >> pure t)
          (init_goal_workspace_with_limits F objective limits d)
          ((init-IsFresh objective limits).at d) λ d1 s fresh. begun d1 s fresh)
  ]
    where
      begun :
          (d1 : D) (s : GoalState)
          → IsFresh s
          → OnOk
              (λ d' s. Holds F d' s × IsFresh s)
              ((F.write_state (record s { token_budget = budget })
                  >> pure (record s { token_budget = budget }))
                d1)
      begun d1 s fresh =
          let t = record s { token_budget = budget } in
          let same : IsFresh (record s { token_budget = budget }) = record {
            loops = fresh.loops;
            first = fresh.first;
            total = fresh.total;
            limit = fresh.limit;
          } in
          rw (write-then F W t (pure t) d1) (
            pure-OnOk (λ d' s. Holds F d' s × IsFresh s) t (F.write_state t d1).0
              (write-Holds F W t d1, same))
