-- ===== src/Tools/Hidden.antt =====
-- crates/mini-agent-core/src/tool.rs, `ToolRouter`: tools that are hidden or not there.
use mini_agent_harness.Prelude.{
  ◌≡◌, refl, ap, ◌∙◌, Text, Bool, true, false, Bool-cases, inl, inr, not, none, List, [], ◌∷◌, ◌++◌,
  map, keep, some_of, codes, text_eq, text_eq_iff,
}
use mini_agent_harness.Protocol.{ToolExecutionRequest, ToolReplaySafety}
use mini_agent_harness.Protocol.Outcome
use mini_agent_harness.Tools.Router.{
  Tool, ToolRouter, is_hidden, specs, find_tool, execute_outcome, recovery_replay_safety,
}

module _ {V W : Type 0} where
  -- a lookup whose test hides every tool of the name finds none
  pub find_tool-hidden :
      (hidden : Text → Bool) (name : Text) (ts : List (Tool V W))
      → ((other : Text) → text_eq other name ≡ true → hidden other ≡ true)
      → find_tool hidden name ts ≡ none
  unfolding find_tool
  find_tool-hidden hidden name [] h = refl
  find_tool-hidden hidden name (t ∷ ts) h = elim (Bool-cases (text_eq t.spec.name name)) [
    | inl same ↦ rw (same, h t.spec.name same) (find_tool-hidden hidden name ts h)
    | inr other ↦ rw other (find_tool-hidden hidden name ts h)
  ]

  offered :
      (ts : List (Tool V W)) (hidden : Text → Bool) (name : Text)
      → ((other : Text) → text_eq other name ≡ true → hidden other ≡ true)
      → some_of
          (λ s. text_eq s.name name)
          (map (λ t. t.spec) (keep (λ t. not (hidden t.spec.name)) ts))
        ≡ false
  offered [] hidden name h = refl
  offered (t ∷ ts) hidden name h = elim (Bool-cases (hidden t.spec.name)) [
    | inl shut ↦ rw shut (offered ts hidden name h)
    | inr shown ↦ elim (Bool-cases (text_eq t.spec.name name)) [
      | inl same ↦ cc (h t.spec.name same)
      | inr other ↦ rw (shown, other) (offered ts hidden name h)
    ]
  ]

  -- A call of a hidden tool runs nothing: it leaves the world as it is, fails as an unknown tool,
  -- and is never safe to replay; the model is offered no tool of that name.
  pub hidden_tool_runs_nothing :
      (r : ToolRouter V W) (request : ToolExecutionRequest V) (w : W)
      → is_hidden r request.name ≡ true
      → (execute_outcome r request w ≡ (w, Outcome.failed (codes "unknown tool: " ++ request.name)))
        × ((recovery_replay_safety r request ≡ ToolReplaySafety.never)
            × (some_of (λ s. text_eq s.name request.name) (specs r) ≡ false))
  unfolding execute_outcome recovery_replay_safety specs
  hidden_tool_runs_nothing r request w h = (
    rw (execute_outcome, find_tool-hidden (is_hidden r) request.name r.tools alike) refl,
    (
      rw
          (
            recovery_replay_safety,
            find_tool-hidden (λ _. is_hidden r request.name) request.name r.tools (λ other e. h),
          )
          refl,
      offered r.tools (is_hidden r) request.name alike,
    ),
  )
    where
      alike : (other : Text) → text_eq other request.name ≡ true → is_hidden r other ≡ true
      alike other e = ap (is_hidden r) ((text_eq_iff other request.name).0 e) ∙ h
