-- ===== src/Compaction/Fit.antt =====
-- crates/mini-agent-core/src/context_controller.rs: how the loops that drop groups end.
use mini_agent_harness.Prelude.{
  ℕ, zero, suc, ◌≤◌, ◌<◌, ◌≡◌, refl, ◌⊎◌, inl, inr, Text, true, Bool-cases, List, [], ◌∷◌, ◌++◌,
  length, ltb, arith,
}
use mini_agent_harness.Protocol.{Json, Message, ToolSpec, context, user, assistant, tool}
use mini_agent_harness.Session.Bytes.{context_bytes_for}
use mini_agent_harness.Compaction.Shrink.{
  drop_tools, remove_first_message_group, request_fits, trim_loop, trim_prefix_to_fit,
  assemble_compacted, mechanical_loop, mechanical_compact,
}

module _ {V : Type 0} where
  length-drop_tools : (ms : List (Message V)) → length (drop_tools ms) ≤ length ms
  unfolding drop_tools
  length-drop_tools [] = omega arith
  length-drop_tools (tool i n x e o ∷ ms) = omega (arith, length-drop_tools ms)
  length-drop_tools (user t ∷ ms) = omega arith
  length-drop_tools (context t ∷ ms) = omega arith
  length-drop_tools (assistant r t cs ∷ ms) = omega arith

  -- Each round of the loops drops a message at least.
  pub length-remove_group :
      (ms : List (Message V)) (fuel : ℕ)
      → length ms ≤ suc fuel
      → length (remove_first_message_group ms) ≤ fuel
  unfolding remove_first_message_group
  length-remove_group [] fuel h = omega arith
  length-remove_group (assistant r t (c ∷ cs) ∷ ms) fuel h =
      omega (arith, length-drop_tools ms, length-drop_tools (drop_tools ms))
  length-remove_group (assistant r t [] ∷ ms) fuel h = omega (arith, length-drop_tools ms)
  length-remove_group (user t ∷ ms) fuel h = omega (arith, length-drop_tools ms)
  length-remove_group (context t ∷ ms) fuel h = omega (arith, length-drop_tools ms)
  length-remove_group (tool i n x e o ∷ ms) fuel h = omega (arith, length-drop_tools ms)

  module _ (J : Json V) (prompt system : Text) (specs : List (ToolSpec V)) (limit : ℕ) where
    trim_loop-fits :
        (fuel : ℕ) (prefix : List (Message V))
        → length prefix ≤ fuel
        → let p = trim_loop J prompt system specs limit fuel prefix in
          (p ≡ []) ⊎ (request_fits J prompt system specs limit p ≡ true)
    unfolding trim_loop
    trim_loop-fits zero [] h = inl refl
    trim_loop-fits zero (m ∷ ms) h = absurd (omega arith)
    trim_loop-fits (suc fuel) [] h = inl refl
    trim_loop-fits (suc fuel) (m ∷ ms) h =
        elim (Bool-cases (request_fits J prompt system specs limit (m ∷ ms))) [
          | inl fits ↦ rw fits (inr fits)
          | inr long ↦ rw long (trim_loop-fits fuel _ (length-remove_group (m ∷ ms) fuel h))
        ]

    -- What `trim_prefix_to_fit` leaves is empty, or fits the limit together with the prompt.
    pub trim_prefix_to_fit_fits :
        (prefix : List (Message V))
        → let p = trim_prefix_to_fit J prompt system specs limit prefix in
          (p ≡ []) ⊎ (context_bytes_for J system (p ++ user prompt ∷ []) specs ≤ limit)
    unfolding trim_prefix_to_fit
    trim_prefix_to_fit_fits prefix = go (trim_loop-fits (length prefix) prefix (omega arith))
      where
        go :
            {p : List (Message V)}
            → (p ≡ []) ⊎ (request_fits J prompt system specs limit p ≡ true)
            → (p ≡ []) ⊎ (context_bytes_for J system (p ++ user prompt ∷ []) specs ≤ limit)
        go (inl e) = inl e
        go (inr e) = inr (unfold request_fits in ground (arith, e))

    mechanical_loop-fits :
        (compacted : List (Message V)) (fuel : ℕ) (prefix : List (Message V))
        → length prefix ≤ fuel
        → let p = mechanical_loop J system specs limit compacted fuel prefix in
          (p ≡ compacted) ⊎ (ltb (context_bytes_for J system p specs) limit ≡ true)
    unfolding mechanical_loop
    mechanical_loop-fits compacted zero [] h = inl refl
    mechanical_loop-fits compacted zero (m ∷ ms) h = absurd (omega arith)
    mechanical_loop-fits compacted (suc fuel) [] h = inl refl
    mechanical_loop-fits compacted (suc fuel) (m ∷ ms) h =
        elim (Bool-cases (ltb (context_bytes_for J system ((m ∷ ms) ++ compacted) specs) limit)) [
          | inl fits ↦ rw fits (inr fits)
          | inr long ↦
              rw long (mechanical_loop-fits compacted fuel _ (length-remove_group (m ∷ ms) fuel h))
        ]

    -- The mechanical compaction ends below its target, or with nothing left of the prefix.
    pub mechanical_compact_fits :
        (prefix contexts tail : List (Message V)) (max_input : ℕ)
        → let p = mechanical_compact J prefix contexts tail limit system specs max_input in
          (p ≡ contexts ++ tail) ⊎ (context_bytes_for J system p specs < limit)
    unfolding mechanical_compact assemble_compacted
    mechanical_compact_fits prefix contexts tail max_input =
        go (mechanical_loop-fits (contexts ++ tail) (length prefix) prefix (omega arith))
      where
        go :
            {p : List (Message V)}
            → (p ≡ contexts ++ tail) ⊎ (ltb (context_bytes_for J system p specs) limit ≡ true)
            → (p ≡ contexts ++ tail) ⊎ (context_bytes_for J system p specs < limit)
        go (inl e) = inl e
        go (inr e) = inr (ground (arith, e))
