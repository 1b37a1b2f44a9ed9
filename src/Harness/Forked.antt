-- ===== src/Harness/Forked.antt =====
-- crates/mini-agent-core/src/harness.rs: what `prepare_fork_checkpoint` may do, and prepares.
use mathlib.Core.Path.{subst}
use mini_agent_harness.Prelude.{
  ℕ, ◌/◌, ◌≤◌, ◌<◌, ◌≡◌, ◌⊎◌, refl, sym, ap, ◌∙◌, inl, inr, Text, false, Bool-cases, Option, none,
  some, List, [], leb, arith,
}
use mini_agent_harness.Protocol.{Json, ToolSpec, LimitExceeded, LimitKind}
use mini_agent_harness.Session.Settled.{IsSettled}
use mini_agent_harness.Session.Bytes.{context_bytes}
use mini_agent_harness.Tools.Router
use mini_agent_harness.Harness.Config.{
  Result, ok, err, HarnessError, Harness, ForkContextPolicy, ForkCompactionMethod, ForkPreparation,
}
use mini_agent_harness.Harness.History.{ensure_context_limit}
use mini_agent_harness.Harness.Compact.{Run, compact_context_to, compact_context}
use mini_agent_harness.Harness.Compacted.{Compacted, compact_context_to-Compacted}
use mini_agent_harness.Harness.Fork.{prepared, fork_compacted, prepare_fork_checkpoint}

module _ {V W E : Type 0} (J : Json V) where
  -- what a prepared fork is of the harness
  abbrev pub Prepared : Harness V W E → Result (HarnessError E) (ForkPreparation V) → Type 0
  Prepared h (err _) = Unit
  Prepared h (ok p) =
      ((p.context_before_bytes
          ≡ context_bytes J h.config.system_prompt (Router.specs h.tools) h.session)
        × (p.context_after_bytes
            ≡ context_bytes J h.config.system_prompt (Router.specs h.tools) p.session)
        × (p.context_after_bytes ≤ h.config.max_context_bytes))
      × (((p.session ≡ h.session) ⊎ (p.context_after_bytes < p.context_before_bytes))
          × (IsSettled h.session.messages → IsSettled p.session.messages))

  limit-bound :
      (specs : List (ToolSpec V)) (h : Harness V W E)
      → ensure_context_limit J specs h ≡ none
      → context_bytes J h.config.system_prompt specs h.session ≤ h.config.max_context_bytes
  unfolding ensure_context_limit
  limit-bound specs h q =
      elim (Bool-cases
        (leb (context_bytes J h.config.system_prompt specs h.session) h.config.max_context_bytes)) [
          | inl fits ↦ ground (arith, fits)
          | inr over ↦ cc (sym (some_limit over) ∙ q)
        ]
    where
      some_limit :
          leb (context_bytes J h.config.system_prompt specs h.session) h.config.max_context_bytes
            ≡ false
          → ensure_context_limit J specs h
            ≡ some (record {
              kind = LimitKind.context_bytes;
              limit = h.config.max_context_bytes;
              actual = context_bytes J h.config.system_prompt specs h.session;
            })
      some_limit e = rw e refl

  answer-Prepared :
      (h h' : Harness V W E)
      → h'.config ≡ h.config
      → (before : ℕ) (method : ForkCompactionMethod)
      → before ≡ context_bytes J h.config.system_prompt (Router.specs h.tools) h.session
      → (h'.session ≡ h.session)
        ⊎ (context_bytes J h.config.system_prompt (Router.specs h.tools) h'.session < before)
      → (IsSettled h.session.messages → IsSettled h'.session.messages)
      → (o : Option LimitExceeded) → ensure_context_limit J (Router.specs h.tools) h' ≡ o
      → Prepared h (
          prepared o h'.session before
            (context_bytes J h'.config.system_prompt (Router.specs h.tools) h'.session)
            method)
  unfolding prepared
  answer-Prepared h h' c before method start d settled (some e) q = tt
  answer-Prepared h h' c before method start d settled none q = (
    (
      start,
      size,
      omega (arith, limit-bound (Router.specs h.tools) h' q, ap (λ x. x.max_context_bytes) c),
    ),
    (smaller d, settled),
  )
    where
      size :
          context_bytes J h'.config.system_prompt (Router.specs h.tools) h'.session
          ≡ context_bytes J h.config.system_prompt (Router.specs h.tools) h'.session
      size = ap (λ x. context_bytes J x.system_prompt (Router.specs h.tools) h'.session) c

      smaller :
          (h'.session ≡ h.session)
            ⊎ (context_bytes J h.config.system_prompt (Router.specs h.tools) h'.session < before)
          → (h'.session ≡ h.session)
            ⊎ (context_bytes J h'.config.system_prompt (Router.specs h.tools) h'.session < before)
      smaller (inl e) = inl e
      smaller (inr l) = inr (omega (arith, l, size))

  fork_compacted-Prepared :
      (h : Harness V W E) (p : Run V W E × Result (HarnessError E) ForkCompactionMethod)
      → Compacted J (Router.specs h.tools) h p
      → let ((w', h'), answer) =
          fork_compacted J
            (Router.specs h.tools)
            h.session
            (context_bytes J h.config.system_prompt (Router.specs h.tools) h.session)
            p in
        (h' ≡ h) × Prepared h answer
  unfolding fork_compacted
  fork_compacted-Prepared h (r, err e) c =
      (ap {A = Harness V W E} (λ x. record x { session = h.session }) c, tt)
  fork_compacted-Prepared h (r, ok ForkCompactionMethod.exact) c = (
    ap {A = Harness V W E} (λ x. record x { session = h.session }) c,
    answer-Prepared h r.harness (ap (λ x. x.config) c) _ ForkCompactionMethod.exact refl
        (inl (ap (λ x. x.session) c)) (λ i. subst (λ x. IsSettled x.session.messages) (sym c) i) _
        refl,
  )
  fork_compacted-Prepared h (r, ok ForkCompactionMethod.model_summary) c = (
    c.0,
    answer-Prepared h r.harness (ap (λ x. x.config) c.0) _ ForkCompactionMethod.model_summary refl
        (inr c.1.0.0) c.1.1 _ refl,
  )
  fork_compacted-Prepared h (r, ok ForkCompactionMethod.mechanical) c = (
    c.0,
    answer-Prepared h r.harness (ap (λ x. x.config) c.0) _ ForkCompactionMethod.mechanical refl
        (inr c.1.0.0) c.1.1 _ refl,
  )

  -- Whatever the model answers, `prepare_fork_checkpoint` leaves the harness as it was. What it
  -- prepares is within the context limit, and settled if the harness's history is; the size before
  -- is that of the harness's session, the size after that of the prepared one, and the prepared one
  -- is the harness's session, or is smaller than that.
  pub prepare_fork_checkpoint-Prepared :
      (prompt : Text) (policy : ForkContextPolicy) (w : W) (h : Harness V W E)
      → let ((w', h'), answer) = prepare_fork_checkpoint J prompt policy w h in
        (h' ≡ h) × Prepared h answer
  unfolding prepare_fork_checkpoint compact_context
  prepare_fork_checkpoint-Prepared prompt ForkContextPolicy.exact w h =
      (refl, answer-Prepared h h refl _ ForkCompactionMethod.exact refl (inl refl) (λ i. i) _ refl)
  prepare_fork_checkpoint-Prepared prompt ForkContextPolicy.compact w h =
      fork_compacted-Prepared h
        (compact_context_to J prompt (Router.specs h.tools) (h.config.max_context_bytes / 2) false
          (record { harness = h; events = []; world = w }))
        (compact_context_to-Compacted J (Router.specs h.tools) prompt
          (h.config.max_context_bytes / 2) false (record { harness = h; events = []; world = w }))
