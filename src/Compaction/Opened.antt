-- ===== src/Compaction/Opened.antt =====
-- crates/mini-agent-core/src/context_controller.rs: compaction of a history that ends in a request
-- whose calls are still to be made.
use mini_agent_harness.Prelude.{
  ℕ, zero, suc, ◌+◌, ◌≡◌, ◌⊎◌, refl, sym, ap, ◌∙◌, inl, inr, Text, false, Bool-cases, Option, none,
  some, List, [], ◌∷◌, ◌++◌, ◌||◌, append_assoc, length, is_nil, ltb, take, drop,
}
use mini_agent_harness.Protocol.{Json, Message, ToolCall, ToolSpec, context, user, assistant, tool}
use mini_agent_harness.Session.Bytes.{context_bytes_for}
use mini_agent_harness.Session.Settled.{IsSettled}
use mini_agent_harness.Session.Complete.{append-IsSettled}
use mini_agent_harness.Compaction.Parts.{
  is_kept_context, without_contexts, take_latest_contexts, starts_from, assistant_starts,
  split_prefix_tail, split_compaction_parts,
}
use mini_agent_harness.Compaction.Shrink.{assemble_compacted, mechanical_loop, mechanical_compact}
use mini_agent_harness.Compaction.Partition.{IsStart, tail_start_of-Cut}
use mini_agent_harness.Compaction.Groups.{
  remove_group-IsSettled, without_contexts-settled, cut-IsSettled,
}
use mini_agent_harness.Compaction.Replay.{contexts-IsSettled}

module _ {V : Type 0} (r x : Text) (calls : List (ToolCall V)) where
  -- complete tool groups, and then the request
  abbrev pub IsOpened : List (Message V) → Type 0
  IsOpened ms =
      (before : List (Message V)) × (ms ≡ before ++ assistant r x calls ∷ []) × IsSettled before

  without_contexts-append :
      (before : List (Message V))
      → without_contexts (before ++ assistant r x calls ∷ [])
        ≡ without_contexts before ++ assistant r x calls ∷ []
  unfolding without_contexts is_kept_context
  without_contexts-append [] = refl
  without_contexts-append (m ∷ ms) = elim (Bool-cases (is_kept_context m)) [
    | inl kept ↦ rw (without_contexts, kept) (without_contexts-append ms)
    | inr other ↦ rw (without_contexts, other) (ap (λ l. m ∷ l) (without_contexts-append ms))
  ]

  without_contexts-IsOpened : (ms : List (Message V)) → IsOpened ms → IsOpened (without_contexts ms)
  without_contexts-IsOpened ms (before, e, settled) = (
    without_contexts before,
    ap without_contexts e ∙ without_contexts-append before,
    without_contexts-settled none before settled,
  )

  some_start :
      (i : ℕ) (before : List (Message V))
      → is_nil (starts_from i (before ++ assistant r x calls ∷ [])) ≡ false
  unfolding starts_from
  some_start i [] = refl
  some_start i (assistant _ _ _ ∷ ms) = refl
  some_start i (user t ∷ ms) = some_start (i + 1) ms
  some_start i (context t ∷ ms) = some_start (i + 1) ms
  some_start i (tool _ _ _ _ _ ∷ ms) = some_start (i + 1) ms

  -- a cut within the part before the request, or at the request
  abbrev CutOf : ℕ → List (Message V) → Type 0
  CutOf k before =
      let ms = before ++ assistant r x calls ∷ [] in
      (IsStart k before
        × (take k ms ≡ take k before)
        × (drop k ms ≡ drop k before ++ assistant r x calls ∷ []))
      ⊎ ((take k ms ≡ before) × (drop k ms ≡ assistant r x calls ∷ []))

  cut_of :
      (k : ℕ) (before : List (Message V))
      → IsStart k (before ++ assistant r x calls ∷ [])
      → CutOf k before
  cut_of zero [] s = inr (refl, refl)
  cut_of (suc zero) [] s = elim s [ ]
  cut_of (suc (suc k)) [] s = elim s [ ]
  cut_of zero (assistant _ _ _ ∷ ms) s = inl (s, refl, refl)
  cut_of zero (user t ∷ ms) s = elim s [ ]
  cut_of zero (context t ∷ ms) s = elim s [ ]
  cut_of zero (tool _ _ _ _ _ ∷ ms) s = elim s [ ]
  cut_of (suc k) (m ∷ ms) s = elim (cut_of k ms s) [
    | inl (t, e, f) ↦ inl (t, ap (λ l. m ∷ l) e, f)
    | inr (e, f) ↦ inr (ap (λ l. m ∷ l) e, f)
  ]

  cut-IsOpened :
      (k : ℕ) (ms : List (Message V))
      → IsOpened ms
      → IsStart k ms
      → IsSettled (take k ms) × IsOpened (drop k ms)
  cut-IsOpened k ms (before, e, settled) start = elim (cut_of k before (rw (sym e) start)) [
    | inl (s, p, q) ↦
        let (a, b) = cut-IsSettled none k before settled s in
        (rw (ap (take k) e ∙ p) a, (drop k before, ap (drop k) e ∙ q, b))
    | inr (p, q) ↦ (rw (ap (take k) e ∙ p) settled, ([], ap (drop k) e ∙ q, refl))
  ]

  split_prefix_tail-IsOpened :
      (J : Json V) (ms : List (Message V))
      → IsOpened ms
      → IsSettled (split_prefix_tail J ms).0 × IsOpened (split_prefix_tail J ms).1
  unfolding split_prefix_tail assistant_starts
  split_prefix_tail-IsOpened J ms (before, e, settled) =
      let some : is_nil (assistant_starts ms) ≡ false =
        ap (λ l. is_nil (assistant_starts l)) e ∙ some_start 0 before in
      rw some (cut-IsOpened _ ms (before, e, settled) (tail_start_of-Cut J ms some).0)

  -- The request stays at the end of the tail that compaction keeps.
  pub split_compaction_parts-IsOpened :
      (J : Json V) (ms : List (Message V))
      → IsOpened ms
      → let (prefix, contexts, tail) = split_compaction_parts J ms in
        IsSettled prefix × (IsSettled contexts × IsOpened tail)
  unfolding split_compaction_parts take_latest_contexts
  split_compaction_parts-IsOpened J ms h =
      let (p, t) =
        split_prefix_tail-IsOpened J (without_contexts ms) (without_contexts-IsOpened ms h) in
      (p, (contexts-IsSettled 0 ms, t))

  append-IsOpened : (xs ys : List (Message V)) → IsSettled xs → IsOpened ys → IsOpened (xs ++ ys)
  append-IsOpened xs ys h (before, e, settled) = (
    xs ++ before,
    ap (λ l. xs ++ l) e ∙ sym (append_assoc xs before _),
    append-IsSettled xs before h settled,
  )

  pub assemble_compacted-IsOpened :
      (summary : Option Text) (contexts tail : List (Message V)) (max_input : ℕ)
      → IsSettled contexts
      → IsOpened tail
      → IsOpened (assemble_compacted summary contexts tail max_input)
  unfolding assemble_compacted
  assemble_compacted-IsOpened none contexts tail max_input c t = append-IsOpened contexts tail c t
  assemble_compacted-IsOpened (some s) contexts tail max_input c t =
      append-IsOpened (user _ ∷ []) (contexts ++ tail) refl (append-IsOpened contexts tail c t)

  mechanical_loop-IsOpened :
      (J : Json V) (system : Text) (specs : List (ToolSpec V)) (limit : ℕ) (rest : List (Message V))
      → IsOpened rest
      → (fuel : ℕ) (ms : List (Message V)) → IsSettled ms
      → IsOpened (mechanical_loop J system specs limit rest fuel ms)
  unfolding mechanical_loop
  mechanical_loop-IsOpened J system specs limit rest r zero ms h = append-IsOpened ms rest h r
  mechanical_loop-IsOpened J system specs limit rest r (suc fuel) ms h =
      elim (Bool-cases (is_nil ms || ltb (context_bytes_for J system (ms ++ rest) specs) limit)) [
        | inl fits ↦ rw fits (append-IsOpened ms rest h r)
        | inr long ↦ rw long (
            mechanical_loop-IsOpened J system specs limit rest r fuel _
              (remove_group-IsSettled ms h))
      ]

  pub mechanical_compact-IsOpened :
      (J : Json V) (system : Text) (specs : List (ToolSpec V)) (limit : ℕ)
      (prefix contexts tail : List (Message V)) (max_input : ℕ)
      → IsSettled prefix
      → IsSettled contexts
      → IsOpened tail
      → IsOpened (mechanical_compact J prefix contexts tail limit system specs max_input)
  unfolding mechanical_compact
  mechanical_compact-IsOpened J system specs limit prefix contexts tail max_input p c t =
      mechanical_loop-IsOpened J system specs limit _
        (assemble_compacted-IsOpened none contexts tail max_input c t) (length prefix) prefix p
