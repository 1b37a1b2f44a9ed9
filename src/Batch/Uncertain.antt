-- ===== src/Batch/Uncertain.antt =====
-- crates/mini-agent-core/src/tool_batch_executor.rs, `validate_tool_batch_recovery`: the calls of which
-- nobody knows what they did.
use mini_agent_harness.Prelude.{
  ◌≡◌, refl, ap, true, false, Option, none, some, is_some, List, [], ◌∷◌, ◌++◌, ◌⊎◌, arith,
  Bool-cases, inl, inr, All,
}
use mini_agent_harness.Protocol.{ToolExecutionOutcome, is_safe}
use mini_agent_harness.Tools.Router.{recovery_replay_safety}
use mini_agent_harness.Tools.Named.{IsRepeatable, recovery_replay_safety_iff}
use mini_agent_harness.Execution.{ExecutionToolCall}
use mini_agent_harness.Batch.Monad.{Options}
use mini_agent_harness.Batch.Recover.{is_unsettled, unsettled_text, validate_calls, plain_request}

module _ {V W : Type 0} (o : Options V W) where
  -- The call started, the journal does not know its end, and it may not run again.
  abbrev pub IsUncertain : ExecutionToolCall V → Type 0
  IsUncertain c =
      (c.started ≡ true) × (c.outcome ≡ none) × ¬ (IsRepeatable o.tools (plain_request c.call))

  abbrev pub IsReplayable : ExecutionToolCall V → Type 0
  IsReplayable c = ¬ (IsUncertain c)

  -- the first uncertain call
  abbrev pub FirstUncertain : List (ExecutionToolCall V) → ExecutionToolCall V → Type 0
  FirstUncertain calls c =
      (before : List (ExecutionToolCall V)) × (after : List (ExecutionToolCall V)) × (calls
        ≡ before ++ c ∷ after)
      × All IsReplayable before
      × IsUncertain c

  is_unsettled-IsUncertain :
      (c : ExecutionToolCall V) → is_unsettled o.tools c ≡ true → IsUncertain c
  unfolding is_unsettled
  is_unsettled-IsUncertain c h = (
    ground (arith, h),
    no_outcome c.outcome (ground (arith, h)),
    λ safe. ground (arith, h, (recovery_replay_safety_iff o.tools (plain_request c.call)).1 safe),
  )
    where
      no_outcome : (r : Option ToolExecutionOutcome) → is_some r ≡ false → r ≡ none
      no_outcome none e = refl
      no_outcome (some r) e = cc

  IsUncertain-is_unsettled :
      (c : ExecutionToolCall V) → is_unsettled o.tools c ≡ false → IsReplayable c
  unfolding is_unsettled
  IsUncertain-is_unsettled c h (on, lost, unsafe) =
      elim (Bool-cases (is_safe (recovery_replay_safety o.tools (plain_request c.call)))) [
        | inl safe ↦ unsafe ((recovery_replay_safety_iff o.tools (plain_request c.call)).0 safe)
        | inr never ↦ ground (arith, h, on, ap is_some lost, never)
      ]

  pub validate_calls-cases :
      (cs : List (ExecutionToolCall V))
      → ((c : ExecutionToolCall V) × FirstUncertain cs c
          × (validate_calls o.tools cs ≡ some (unsettled_text c.call)))
        ⊎ (All IsReplayable cs × (validate_calls o.tools cs ≡ none))
  unfolding validate_calls
  validate_calls-cases [] = inr (tt, refl)
  validate_calls-cases (c ∷ cs) = elim (Bool-cases (is_unsettled o.tools c)) [
    | inl e ↦ inl (c, ([], cs, refl, tt, is_unsettled-IsUncertain c e), ground (arith, e))
    | inr e ↦ elim (validate_calls-cases cs) [
      | inl (d, (before, after, q, safe, u), h) ↦ inl (
        d,
        (c ∷ before, after, ap (λ l. c ∷ l) q, (IsUncertain-is_unsettled c e, safe), u),
        ground (arith, e, h),
      )
      | inr (safe, h) ↦ inr ((IsUncertain-is_unsettled c e, safe), ground (arith, e, h))
    ]
  ]
