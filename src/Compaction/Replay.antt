-- ===== src/Compaction/Replay.antt =====
-- crates/mini-agent-core/src/context_controller.rs: compaction of settled histories.
use mini_agent_harness.Prelude.{
  ℕ, zero, suc, ◌+◌, refl, inl, inr, Text, Bool-cases, Option, none, some, List, [], ◌∷◌, ◌++◌,
  ◌&&◌, ◌||◌, not, length, is_nil, ltb, text_mem,
}
use mini_agent_harness.Protocol.{Json, Message, ToolSpec, context, user, assistant, tool}
use mini_agent_harness.Session.Bytes.{context_bytes_for}
use mini_agent_harness.Session.Settled.{IsSettled}
use mini_agent_harness.Session.Complete.{append-IsSettled}
use mini_agent_harness.Compaction.Parts.{
  is_kept_context, message_slot, latest_contexts, without_contexts, take_latest_contexts,
  assistant_starts, split_prefix_tail, split_compaction_parts,
}
use mini_agent_harness.Compaction.Shrink.{
  request_fits, trim_loop, trim_prefix_to_fit, assemble_compacted, mechanical_loop,
  mechanical_compact,
}
use mini_agent_harness.Compaction.Partition.{tail_start_of-Cut}
use mini_agent_harness.Compaction.Groups.{
  remove_group-IsSettled, without_contexts-settled, cut-IsSettled,
}

module _ {V : Type 0} where
  -- the fates of the parts
  tail_IsSettled :
      (J : Json V) (ms : List (Message V))
      → IsSettled ms
      → IsSettled (split_prefix_tail J ms).0 × IsSettled (split_prefix_tail J ms).1
  unfolding split_prefix_tail
  tail_IsSettled J ms h = elim (Bool-cases (is_nil (assistant_starts ms))) [
    | inl no_start ↦ rw no_start (h, refl)
    | inr some_start ↦
        rw some_start (cut-IsSettled none _ ms h (tail_start_of-Cut J ms some_start).0)
  ]

  pub contexts-IsSettled :
      (index : ℕ) (ms : List (Message V)) → IsSettled (latest_contexts index ms).1
  unfolding latest_contexts is_kept_context
  contexts-IsSettled index [] = refl
  contexts-IsSettled index (user t ∷ ms) = contexts-IsSettled (index + 1) ms
  contexts-IsSettled index (tool i n x e o ∷ ms) = contexts-IsSettled (index + 1) ms
  contexts-IsSettled index (assistant r t cs ∷ ms) = contexts-IsSettled (index + 1) ms
  contexts-IsSettled index (context t ∷ ms) =
      elim (Bool-cases (
        is_kept_context {V = V} (context t)
        && not (
            text_mem (message_slot {V = V} (context t) index)
              (latest_contexts (index + 1) ms).0))) [
                | inl latest ↦ rw latest (contexts-IsSettled (index + 1) ms)
                | inr old ↦ rw old (contexts-IsSettled (index + 1) ms)
              ]

  trim_loop-IsSettled :
      (J : Json V) (prompt system : Text) (specs : List (ToolSpec V)) (limit fuel : ℕ)
      (ms : List (Message V))
      → IsSettled ms
      → IsSettled (trim_loop J prompt system specs limit fuel ms)
  unfolding trim_loop
  trim_loop-IsSettled J prompt system specs limit zero ms h = h
  trim_loop-IsSettled J prompt system specs limit (suc fuel) ms h = elim (Bool-cases (is_nil ms)) [
    | inl e ↦ rw e h
    | inr e ↦ elim (Bool-cases (request_fits J prompt system specs limit ms)) [
      | inl fits ↦ rw (e, fits) h
      | inr long ↦
          rw (e, long)
            (trim_loop-IsSettled J prompt system specs limit fuel _ (remove_group-IsSettled ms h))
    ]
  ]

  mechanical_loop-IsSettled :
      (J : Json V) (system : Text) (specs : List (ToolSpec V)) (limit : ℕ) (rest : List (Message V))
      → IsSettled rest
      → (fuel : ℕ) (ms : List (Message V)) → IsSettled ms
      → IsSettled (mechanical_loop J system specs limit rest fuel ms)
  unfolding mechanical_loop
  mechanical_loop-IsSettled J system specs limit rest r zero ms h = append-IsSettled ms rest h r
  mechanical_loop-IsSettled J system specs limit rest r (suc fuel) ms h =
      elim (Bool-cases (is_nil ms || ltb (context_bytes_for J system (ms ++ rest) specs) limit)) [
        | inl fits ↦ rw fits (append-IsSettled ms rest h r)
        | inr long ↦ rw long (
            mechanical_loop-IsSettled J system specs limit rest r fuel _
              (remove_group-IsSettled ms h))
      ]

  -- The three parts that compaction splits a settled history into are settled, each alone.
  pub split_compaction_parts-IsSettled :
      (J : Json V) (ms : List (Message V))
      → IsSettled ms
      → let (prefix, contexts, tail) = split_compaction_parts J ms in
        IsSettled prefix × (IsSettled contexts × IsSettled tail)
  unfolding split_compaction_parts take_latest_contexts
  split_compaction_parts-IsSettled J ms h =
      let (p, t) = tail_IsSettled J (without_contexts ms) (without_contexts-settled none ms h) in
      (p, (contexts-IsSettled 0 ms, t))

  pub assemble_compacted-IsSettled :
      (summary : Option Text) (contexts tail : List (Message V)) (max_input : ℕ)
      → IsSettled contexts
      → IsSettled tail
      → IsSettled (assemble_compacted summary contexts tail max_input)
  unfolding assemble_compacted
  assemble_compacted-IsSettled none contexts tail max_input c t = append-IsSettled contexts tail c t
  assemble_compacted-IsSettled (some s) contexts tail max_input c t =
      append-IsSettled contexts tail c t

  module _ (J : Json V) (prompt system : Text) (specs : List (ToolSpec V)) (limit : ℕ) where
    pub trim_prefix_to_fit-IsSettled :
        (prefix : List (Message V))
        → IsSettled prefix
        → IsSettled (trim_prefix_to_fit J prompt system specs limit prefix)
    unfolding trim_prefix_to_fit
    trim_prefix_to_fit-IsSettled prefix =
        trim_loop-IsSettled J prompt system specs limit (length prefix) prefix

    pub mechanical_compact-IsSettled :
        (prefix contexts tail : List (Message V)) (max_input : ℕ)
        → IsSettled prefix
        → IsSettled contexts
        → IsSettled tail
        → IsSettled (mechanical_compact J prefix contexts tail limit system specs max_input)
    unfolding mechanical_compact
    mechanical_compact-IsSettled prefix contexts tail max_input p c t =
        mechanical_loop-IsSettled J system specs limit _
          (assemble_compacted-IsSettled none contexts tail max_input c t) (length prefix) prefix p
