-- ===== src/Protocol/Same.antt =====
-- crates/mini-agent-protocol/src: the derived equality of inputs.
use mini_agent_harness.Prelude.{
  Text, Bool, true, false, Option, none, some, List, [], ◌∷◌, text_eq, ◌&&◌,
}
use mini_agent_harness.Protocol.Model.{ModelSelection, ReasoningSelection}
use mini_agent_harness.Protocol.Turn.{TurnInput, TurnInputMode, TurnWorkflow}

same_option : {A : Type 0} → (A → A → Bool) → Option A → Option A → Bool
same_option eq none none = true
same_option eq none (some b) = false
same_option eq (some a) none = false
same_option eq (some a) (some b) = eq a b

same_texts : List Text → List Text → Bool
same_texts [] [] = true
same_texts [] (y ∷ ys) = false
same_texts (x ∷ xs) [] = false
same_texts (x ∷ xs) (y ∷ ys) = text_eq x y && same_texts xs ys

same_mode : TurnInputMode → TurnInputMode → Bool
same_mode TurnInputMode.start TurnInputMode.start = true
same_mode TurnInputMode.start_if_idle TurnInputMode.start_if_idle = true
same_mode TurnInputMode.steer TurnInputMode.steer = true
same_mode TurnInputMode.follow_up TurnInputMode.follow_up = true
same_mode _ _ = false

same_selection : ModelSelection → ModelSelection → Bool
same_selection a b = text_eq a.provider_id b.provider_id && text_eq a.model_id b.model_id

same_reasoning : ReasoningSelection → ReasoningSelection → Bool
same_reasoning ReasoningSelection.api_default ReasoningSelection.api_default = true
same_reasoning (ReasoningSelection.level a) (ReasoningSelection.level b) = text_eq a b
same_reasoning _ _ = false

-- the kinds and the modes of a workflow have one value each
same_workflow : TurnWorkflow → TurnWorkflow → Bool
same_workflow a b = text_eq a.id b.id

unfoldable pub same_input : TurnInput → TurnInput → Bool
unfolding same_option same_texts same_mode same_selection same_reasoning same_workflow
same_input a b =
    same_mode a.mode b.mode
    && (text_eq a.text b.text
        && (same_texts a.selected_skills b.selected_skills
            && (same_option same_workflow a.workflow b.workflow
                && (same_option same_selection a.model_selection b.model_selection
                    && (same_option same_reasoning a.reasoning_selection b.reasoning_selection
                        && (same_option text_eq a.reasoning_effort b.reasoning_effort
                            && same_option text_eq a.steer_request_id b.steer_request_id))))))
