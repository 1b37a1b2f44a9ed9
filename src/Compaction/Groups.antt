-- ===== src/Compaction/Groups.antt =====
-- Settled histories under the steps of a compaction: dropped groups, dropped contexts, cuts.
use mini_agent_harness.Prelude.{
  ℕ, zero, suc, ◌≡◌, refl, sym, ◌∙◌, inl, inr, Text, Bool, true, Bool-cases, Option, none, some,
  List, [], ◌∷◌, take, drop, is_nil, text_mem, text_remove,
}
use mini_agent_harness.Protocol.{Message, ToolExecutionStatus, context, user, assistant, tool}
use mini_agent_harness.Session.Groups.{call_ids, extend_ids}
use mini_agent_harness.Session.Settled.{
  settled_from, IsSettled, settled_foreign, settled_last, settled_more,
}
use mini_agent_harness.Compaction.Parts.{is_kept_context, without_contexts}
use mini_agent_harness.Compaction.Shrink.{drop_tools, remove_first_message_group}
use mini_agent_harness.Compaction.Partition.{IsStart}

module _ {V : Type 0} where
  -- where a result settles one call, what follows is settled from some state
  after_result :
      (pending : List Text) (id n x : Text) (e : Bool) (o : Option ToolExecutionStatus)
      (ms : List (Message V))
      → settled_from (some pending) (tool id n x e o ∷ ms) ≡ true
      → (p : Option (List Text)) × (settled_from p ms ≡ true)
  after_result pending id n x e o ms h = elim (Bool-cases (text_mem id pending)) [
    | inr foreign ↦ cc (settled_foreign id n x e o pending [] ms foreign)
    | inl known ↦ elim (Bool-cases (is_nil (text_remove id pending))) [
      | inl last ↦ (none, sym (settled_last id n x e o pending [] ms known last) ∙ h)
      | inr more ↦ (
        some (text_remove id pending),
        sym (settled_more id n x e o pending [] ms known more) ∙ h,
      )
    ]
  ]

  drop_tools-IsSettled :
      (o : Option (List Text)) (ms : List (Message V))
      → settled_from o ms ≡ true
      → IsSettled (drop_tools ms)
  unfolding drop_tools
  drop_tools-IsSettled none [] h = h
  drop_tools-IsSettled none (tool i n x e o ∷ ms) h = drop_tools-IsSettled none ms h
  drop_tools-IsSettled none (user t ∷ ms) h = h
  drop_tools-IsSettled none (context t ∷ ms) h = h
  drop_tools-IsSettled none (assistant r t cs ∷ ms) h = h
  drop_tools-IsSettled (some p) [] h = cc
  drop_tools-IsSettled (some p) (tool i n x e o ∷ ms) h =
      let (q, g) = after_result p i n x e o ms h in drop_tools-IsSettled q ms g
  drop_tools-IsSettled (some p) (user t ∷ ms) h = cc
  drop_tools-IsSettled (some p) (context t ∷ ms) h = cc
  drop_tools-IsSettled (some p) (assistant r t cs ∷ ms) h = cc

  pub remove_group-IsSettled :
      (ms : List (Message V)) → IsSettled ms → IsSettled (remove_first_message_group ms)
  unfolding remove_first_message_group
  remove_group-IsSettled [] h = h
  remove_group-IsSettled (assistant r t (c ∷ cs) ∷ ms) h =
      drop_tools-IsSettled none (drop_tools ms)
        (drop_tools-IsSettled (some (extend_ids [] (call_ids (c ∷ cs)))) ms h)
  remove_group-IsSettled (assistant r t [] ∷ ms) h = drop_tools-IsSettled none ms h
  remove_group-IsSettled (user t ∷ ms) h = drop_tools-IsSettled none ms h
  remove_group-IsSettled (context t ∷ ms) h = drop_tools-IsSettled none ms h
  remove_group-IsSettled (tool i n x e o ∷ ms) h = drop_tools-IsSettled none ms h

  pub without_contexts-settled :
      (o : Option (List Text)) (ms : List (Message V))
      → settled_from o ms ≡ true
      → settled_from o (without_contexts ms) ≡ true
  unfolding without_contexts is_kept_context
  without_contexts-settled o [] h = h
  without_contexts-settled none (tool i n x e s ∷ ms) h = without_contexts-settled none ms h
  without_contexts-settled none (user t ∷ ms) h = without_contexts-settled none ms h
  without_contexts-settled none (context t ∷ ms) h =
      elim (Bool-cases (is_kept_context {V = V} (context t))) [
        | inl kept ↦ rw kept (without_contexts-settled none ms h)
        | inr other ↦ rw other (without_contexts-settled none ms h)
      ]
  without_contexts-settled none (assistant r t [] ∷ ms) h = without_contexts-settled none ms h
  without_contexts-settled none (assistant r t (c ∷ cs) ∷ ms) h =
      without_contexts-settled (some _) ms h
  without_contexts-settled (some p) (tool i n x e o ∷ ms) h = elim (Bool-cases (text_mem i p)) [
    | inr foreign ↦ cc (settled_foreign i n x e o p [] ms foreign)
    | inl known ↦ elim (Bool-cases (is_nil (text_remove i p))) [
      | inl last ↦
          settled_last i n x e o p [] (without_contexts ms) known last
          ∙ without_contexts-settled none ms (sym (settled_last i n x e o p [] ms known last) ∙ h)
      | inr more ↦
          settled_more i n x e o p [] (without_contexts ms) known more
          ∙ without_contexts-settled (some (text_remove i p)) ms
              (sym (settled_more i n x e o p [] ms known more) ∙ h)
    ]
  ]
  without_contexts-settled (some p) (user t ∷ ms) h = cc
  without_contexts-settled (some p) (context t ∷ ms) h = cc
  without_contexts-settled (some p) (assistant r t cs ∷ ms) h = cc

  -- a settled history cut at the start of an assistant message
  pub cut-IsSettled :
      (o : Option (List Text)) (k : ℕ) (ms : List (Message V))
      → settled_from o ms ≡ true
      → IsStart k ms
      → (settled_from o (take k ms) ≡ true) × IsSettled (drop k ms)
  cut-IsSettled none zero (assistant r t cs ∷ ms) h s = (refl, h)
  cut-IsSettled (some p) zero (assistant r t cs ∷ ms) h s = cc
  cut-IsSettled o zero [] h s = elim s [ ]
  cut-IsSettled o zero (user t ∷ ms) h s = elim s [ ]
  cut-IsSettled o zero (context t ∷ ms) h s = elim s [ ]
  cut-IsSettled o zero (tool i n x e q ∷ ms) h s = elim s [ ]
  cut-IsSettled o (suc k) [] h s = elim s [ ]
  cut-IsSettled none (suc k) (tool i n x e q ∷ ms) h s = cut-IsSettled none k ms h s
  cut-IsSettled none (suc k) (user t ∷ ms) h s = cut-IsSettled none k ms h s
  cut-IsSettled none (suc k) (context t ∷ ms) h s = cut-IsSettled none k ms h s
  cut-IsSettled none (suc k) (assistant r t [] ∷ ms) h s = cut-IsSettled none k ms h s
  cut-IsSettled none (suc k) (assistant r t (c ∷ cs) ∷ ms) h s = cut-IsSettled (some _) k ms h s
  cut-IsSettled (some p) (suc k) (tool i n x e q ∷ ms) h s = elim (Bool-cases (text_mem i p)) [
    | inr foreign ↦ cc (settled_foreign i n x e q p [] ms foreign)
    | inl known ↦ elim (Bool-cases (is_nil (text_remove i p))) [
      | inl last ↦
          let (a, b) =
            cut-IsSettled none k ms (sym (settled_last i n x e q p [] ms known last) ∙ h) s in
          (settled_last i n x e q p [] (take k ms) known last ∙ a, b)
      | inr more ↦
          let (a, b) =
            cut-IsSettled (some (text_remove i p)) k ms
              (sym (settled_more i n x e q p [] ms known more) ∙ h) s in
          (settled_more i n x e q p [] (take k ms) known more ∙ a, b)
    ]
  ]
  cut-IsSettled (some p) (suc k) (user t ∷ ms) h s = cc
  cut-IsSettled (some p) (suc k) (context t ∷ ms) h s = cc
  cut-IsSettled (some p) (suc k) (assistant r t cs ∷ ms) h s = cc
