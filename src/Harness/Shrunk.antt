-- ===== src/Harness/Shrunk.antt =====
-- crates/mini-agent-core/src/harness.rs: what a compaction may do to the harness, for a property of
-- histories.
use mini_agent_harness.Prelude.{
  ℕ, ◌≤◌, ◌<◌, ◌≡◌, refl, inl, inr, Text, Bool, true, false, Bool-cases, Option, none, some, List,
  [], is_nil, ltb, leb, trim, arith, if◌then◌else◌,
}
use mini_agent_harness.Protocol.{Json, Message, ToolSpec, ModelResponse, ModelUsage, Event}
use mini_agent_harness.Session.State
use mini_agent_harness.Session.State.{SessionState}
use mini_agent_harness.Session.Settled.{IsSettled}
use mini_agent_harness.Session.Bytes.{context_bytes_for, context_bytes}
use mini_agent_harness.Compaction.Parts.{split_compaction_parts}
use mini_agent_harness.Compaction.Shrink.{
  bounded_compaction_prompt, trim_prefix_to_fit, assemble_compacted, mechanical_compact,
}
use mini_agent_harness.Compaction.Replay.{trim_prefix_to_fit-IsSettled}
use mini_agent_harness.Harness.Config.{
  Result, ok, err, HarnessConfig, HarnessError, Harness, ForkCompactionMethod,
}
use mini_agent_harness.Harness.Compact.{
  Run, finish_compacted, summary_candidate, use_response, finished, observe, compact_context_to,
  fail_limit, fail_compaction,
}
use mini_agent_harness.Compaction.Carried.{Carried}

module _ {V : Type 0} (J : Json V) (specs : List (ToolSpec V)) (K : List (Message V) → Type 0)
    (carried : Carried J specs K) where
  -- a summary's history has the property
  abbrev Good : Option (List (Message V)) → Type 0
  Good none = Unit
  Good (some c) = K c

  summary_candidate-Good :
      (config : HarnessConfig) (before compact_at : ℕ) (must : Bool)
      (contexts tail : List (Message V)) (response : Option (ModelResponse V))
      → IsSettled contexts
      → K tail
      → Good (summary_candidate J config specs before compact_at must contexts tail response)
  unfolding summary_candidate
  summary_candidate-Good config before compact_at must contexts tail none c t = tt
  summary_candidate-Good config before compact_at must contexts tail (some response) c t =
      chosen _ _
        (carried.assemble (some (trim response.text)) contexts tail config.max_user_input_bytes c t)
    where
      chosen : (b : Bool) (l : List (Message V)) → K l → Good (if b then some l else none)
      chosen true l h = h
      chosen false l h = tt

module _ {V W E : Type 0} (J : Json V) (specs : List (ToolSpec V))
    (K : List (Message V) → Type 0) where
  -- The history is shorter and within the limit, has the property if it had it, and all but the
  -- session is the same.
  abbrev pub ShrunkWith : Harness V W E → Harness V W E → Type 0
  ShrunkWith h h' =
      (record h' { session = h.session } ≡ h)
      × (((context_bytes J h.config.system_prompt specs h'.session
              < context_bytes J h.config.system_prompt specs h.session)
            × (context_bytes J h.config.system_prompt specs h'.session
                ≤ h.config.max_context_bytes))
          × (K h.session.messages → K h'.session.messages))

  abbrev Finished : Harness V W E → Run V W E × Result (HarnessError E) Unit → Type 0
  Finished h (r, ok _) = ShrunkWith h r.harness
  Finished h (r, err _) = r.harness ≡ h

  abbrev pub CompactedWith :
      Harness V W E → Run V W E × Result (HarnessError E) ForkCompactionMethod → Type 0
  CompactedWith h (r, ok ForkCompactionMethod.exact) = r.harness ≡ h
  CompactedWith h (r, ok ForkCompactionMethod.model_summary) = ShrunkWith h r.harness
  CompactedWith h (r, ok ForkCompactionMethod.mechanical) = ShrunkWith h r.harness
  CompactedWith h (r, err _) = r.harness ≡ h

  finish_compacted-Finished :
      (compacted : List (Message V)) (usage : Option ModelUsage) (r : Run V W E)
      → (K r.harness.session.messages → K compacted)
      → Finished r.harness (
          finish_compacted J compacted
            (context_bytes J r.harness.config.system_prompt specs r.harness.session)
            usage
            specs
            r)
  unfolding finish_compacted context_bytes State.replace_messages fail_limit fail_compaction
  finish_compacted-Finished compacted usage r settled = elim (Bool-cases (leb before after)) [
    | inl longer ↦ rw longer refl
    | inr shorter ↦ elim (Bool-cases (ltb r.harness.config.max_context_bytes after)) [
      | inl over ↦ rw (shorter, over) refl
      | inr fits ↦
          rw (shorter, fits) (refl, ((ground (arith, shorter), ground (arith, fits)), settled))
    ]
  ]
    where
      after : ℕ
      after = context_bytes_for J r.harness.config.system_prompt compacted specs

      before : ℕ
      before = context_bytes_for J r.harness.config.system_prompt r.harness.session.messages specs

  finished-summary :
      (h : Harness V W E) (p : Run V W E × Result (HarnessError E) Unit)
      → Finished h p
      → CompactedWith h (finished J ForkCompactionMethod.model_summary p)
  unfolding finished
  finished-summary h (r, ok _) f = f
  finished-summary h (r, err e) f = f

  finished-mechanical :
      (h : Harness V W E) (p : Run V W E × Result (HarnessError E) Unit)
      → Finished h p
      → CompactedWith h (finished J ForkCompactionMethod.mechanical p)
  unfolding finished
  finished-mechanical h (r, ok _) f = f
  finished-mechanical h (r, err e) f = f

module _ {V W E : Type 0} (J : Json V) (specs : List (ToolSpec V)) (K : List (Message V) → Type 0)
    (carried : Carried J specs K) where
  use_response-Carries :
      (compact_at : ℕ) (must : Bool) (prefix contexts tail : List (Message V))
      (response : Option (ModelResponse V)) (r : Run V W E)
      → (K r.harness.session.messages → IsSettled prefix × (IsSettled contexts × K tail))
      → CompactedWith J specs K r.harness (
          use_response J specs compact_at must
            (context_bytes J r.harness.config.system_prompt specs r.harness.session)
            prefix
            contexts
            tail
            response
            r)
  unfolding use_response
  use_response-Carries compact_at must prefix contexts tail response r settled =
      go (summary_candidate J config specs before compact_at must contexts tail response) λ h.
        let (p, (c, t)) = settled h in
        summary_candidate-Good J specs K carried config before compact_at must contexts tail
          response c t
    where
      config : HarnessConfig
      config = r.harness.config

      before : ℕ
      before = context_bytes J config.system_prompt specs r.harness.session

      rest : List (Message V)
      rest =
          mechanical_compact J prefix contexts tail compact_at config.system_prompt specs
            config.max_user_input_bytes

      usage : Option ModelUsage
      usage = elim response [ none ↦ none | some m ↦ m.usage ]

      go :
          (o : Option (List (Message V)))
          → (K r.harness.session.messages → Good J specs K carried o)
          → CompactedWith J specs K r.harness (elim o [
            | some compacted ↦
                finished J ForkCompactionMethod.model_summary
                  (finish_compacted J compacted before usage specs r)
            | none ↦
                finished J ForkCompactionMethod.mechanical
                  (finish_compacted J rest before usage specs r)
          ])
      go (some compacted) g =
          finished-summary J specs K _ _ (finish_compacted-Finished J specs K compacted usage r g)
      go none g = finished-mechanical J specs K _ _ (
          finish_compacted-Finished J specs K rest usage r λ h.
            let (p, (c, t)) = settled h in
            carried.shorten config.system_prompt compact_at prefix contexts tail
              config.max_user_input_bytes p c t)

  pub compact_context_to-Carries :
      (prompt : Text) (compact_at : ℕ) (must : Bool) (r : Run V W E)
      → CompactedWith J specs K r.harness (compact_context_to J prompt specs compact_at must r)
  unfolding compact_context_to observe
  compact_context_to-Carries prompt compact_at must r = elim (Bool-cases (is_nil prefix)) [
    | inl nothing ↦ rw nothing refl
    | inr something ↦ elim (Bool-cases (is_nil trimmed)) [
      | inl long ↦
          rw (something, long)
            (finished-mechanical J specs K r.harness _ (
              finish_compacted-Finished J specs K
                (assemble_compacted none contexts tail config.max_user_input_bytes) none started
                λ h.
                  let (p, (c, t)) = parts h in
                  carried.assemble none contexts tail config.max_user_input_bytes c t))
      | inr short ↦
          rw (something, short)
            (use_response-Carries compact_at must trimmed contexts tail _
              (record started { world = _ })
              λ h.
                let (p, ct) = parts h in
                (
                  trim_prefix_to_fit-IsSettled J request config.system_prompt []
                      config.max_context_bytes prefix p,
                  ct,
                ))
    ]
  ]
    where
      config : HarnessConfig
      config = r.harness.config

      request : Text
      request = bounded_compaction_prompt prompt config.max_user_input_bytes

      prefix : List (Message V)
      prefix = (split_compaction_parts J r.harness.session.messages).0

      contexts : List (Message V)
      contexts = (split_compaction_parts J r.harness.session.messages).1

      tail : List (Message V)
      tail = (split_compaction_parts J r.harness.session.messages).2

      trimmed : List (Message V)
      trimmed = trim_prefix_to_fit J request config.system_prompt [] config.max_context_bytes prefix

      started : Run V W E
      started =
          observe
            (Event.context_compaction_started
              (context_bytes J config.system_prompt specs r.harness.session))
            r

      parts : K r.harness.session.messages → IsSettled prefix × (IsSettled contexts × K tail)
      parts = carried.split r.harness.session.messages
