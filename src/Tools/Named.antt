-- ===== src/Tools/Named.antt =====
-- crates/mini-agent-core/src/tool.rs, `ToolRouter`: the tool that a name means, and which calls may run
-- again after a crash.
use mini_agent_harness.Prelude.{
  ◌≡◌, ◌≢◌, ◌↔◌, refl, sym, ap, ◌∙◌, Text, Bool, true, false, Bool-cases, inl, inr, Option, none,
  some, List, [], ◌∷◌, ◌++◌, All, text_eq, text_eq_iff, text_mem,
}
use mini_agent_harness.Protocol.{ToolExecutionRequest, ToolReplaySafety, is_safe}
use mini_agent_harness.Tools.Hidden.{find_tool-hidden}
use mini_agent_harness.Tools.Router.{Tool, ToolRouter, is_hidden, find_tool, recovery_replay_safety}

is_safe_eq : (x : ToolReplaySafety) → is_safe x ≡ true → x ≡ ToolReplaySafety.safe
unfolding is_safe
is_safe_eq ToolReplaySafety.never h = cc
is_safe_eq ToolReplaySafety.safe h = refl

module _ {V W : Type 0} where
  -- the first tool of the name
  abbrev pub IsFirstNamed : Text → List (Tool V W) → Tool V W → Type 0
  IsFirstNamed name ts t =
      (before : List (Tool V W)) × (after : List (Tool V W)) × (ts ≡ before ++ t ∷ after)
      × All (λ u. u.spec.name ≢ name) before
      × (t.spec.name ≡ name)

  -- The name is not hidden, and the first tool that has it calls the request safe to repeat.
  abbrev pub IsRepeatable : ToolRouter V W → ToolExecutionRequest V → Type 0
  IsRepeatable r request =
      (text_mem request.name r.hidden_tools ≡ false)
      × ((t : Tool V W) × IsFirstNamed request.name r.tools t
          × (t.recovery_replay_safety request ≡ ToolReplaySafety.safe))

  find_tool-IsFirstNamed :
      (name : Text) (ts : List (Tool V W)) (t : Tool V W)
      → find_tool (λ _. false) name ts ≡ some t
      → IsFirstNamed name ts t
  unfolding find_tool
  find_tool-IsFirstNamed name [] t h = cc
  find_tool-IsFirstNamed name (u ∷ ts) t h = elim (Bool-cases (text_eq u.spec.name name)) [
    | inl same ↦
        let found : some u ≡ some t = rw same at h in
        let u_t : u ≡ t = cc in
        (
          [],
          ts,
          ap (λ x. x ∷ ts) u_t,
          tt,
          ap (λ x. x.spec.name) (sym u_t) ∙ (text_eq_iff u.spec.name name).0 same,
        )
    | inr other ↦
        let (before, after, e, apart, q) = find_tool-IsFirstNamed name ts t (rw other at h) in
        (
          u ∷ before,
          after,
          ap (λ l. u ∷ l) e,
          ((λ same. cc ((text_eq_iff u.spec.name name).1 same)), apart),
          q,
        )
  ]

  IsFirstNamed-find_tool :
      (name : Text) (before after : List (Tool V W)) (t : Tool V W)
      → All (λ u. u.spec.name ≢ name) before
      → t.spec.name ≡ name
      → find_tool (λ _. false) name (before ++ t ∷ after) ≡ some t
  unfolding find_tool
  IsFirstNamed-find_tool name [] after t apart q = rw ((text_eq_iff t.spec.name name).1 q) refl
  IsFirstNamed-find_tool name (u ∷ before) after t apart q =
      elim (Bool-cases (text_eq u.spec.name name)) [
        | inl same ↦ absurd (apart.0 ((text_eq_iff u.spec.name name).0 same))
        | inr other ↦ rw other (IsFirstNamed-find_tool name before after t apart.1 q)
      ]

  no_tool :
      (request : ToolExecutionRequest V) (o : Option (Tool V W))
      → o ≡ none
      → is_safe
          (elim o [ none ↦ ToolReplaySafety.never | some t ↦ t.recovery_replay_safety request ])
        ≡ true
      → ⊥
  unfolding is_safe
  no_tool request none e h = cc
  no_tool request (some t) e h = cc

  -- the router's answer about a request, and what the names and the tools say
  pub recovery_replay_safety_iff :
      (r : ToolRouter V W) (request : ToolExecutionRequest V)
      → (is_safe (recovery_replay_safety r request) ≡ true) ↔ IsRepeatable r request
  unfolding recovery_replay_safety is_hidden is_safe
  recovery_replay_safety_iff r request = (
    found (is_hidden r request.name) refl
        (find_tool (λ _. is_hidden r request.name) request.name r.tools) refl,
    λ (shown, (t, (before, after, e, apart, q), safe)).
        rw
          (
            recovery_replay_safety,
            ap (λ b. find_tool (λ _. b) request.name r.tools) shown
                ∙ ap (find_tool (λ _. false) request.name) e
                ∙ IsFirstNamed-find_tool request.name before after t apart q,
            safe,
          )
          refl,
  )
    where
      found :
          (b : Bool)
          → text_mem request.name r.hidden_tools ≡ b
          → (o : Option (Tool V W)) → find_tool (λ _. b) request.name r.tools ≡ o
          → is_safe
              (elim o [ none ↦ ToolReplaySafety.never | some t ↦ t.recovery_replay_safety request ])
            ≡ true
          → IsRepeatable r request
      found true shut o e h =
          let nothing : o ≡ none =
            sym e ∙ find_tool-hidden (λ _. true) request.name r.tools (λ other same. refl) in
          absurd (no_tool request o nothing h)
      found false shown none e h = cc
      found false shown (some t) e h = (
        shown,
        (
          t,
          find_tool-IsFirstNamed request.name r.tools t e,
          is_safe_eq (t.recovery_replay_safety request) h,
        ),
      )
