-- ===== src/Batch/Settles.antt =====
-- crates/mini-agent-core/src/tool_batch_executor.rs: the history after a whole batch.
use mathlib.Core.Path.{subst}
use mini_agent_harness.Prelude.{
  ℕ, ◌≡◌, refl, sym, ap, ◌∙◌, Text, Option, none, some, List, ◌∷◌, [], ◌++◌, append-nil,
  append_assoc, Distinct, Option-cases, inl, inr, All, All-append, Bool, true, false, if◌then◌else◌,
  arith,
}
use mini_agent_harness.Protocol.{
  Json, Message, ContextInjectionRecord, ToolCall, tool, context, user, assistant,
}
use mini_agent_harness.Protocol.Injection
use mini_agent_harness.Session.State
use mini_agent_harness.Session.State.{SessionState, append_context_injection}
use mini_agent_harness.Session.Groups.{call_ids}
use mini_agent_harness.Session.Settled.{IsSettled}
use mini_agent_harness.Session.Complete.{Answers, append-IsSettled, group-IsSettled}
use mini_agent_harness.Batch.Monad.{Options, BatchState, ok, modify, observe, pure}
use mini_agent_harness.Batch.Execute.{
  append_one, Carried, none_carried, run_calls, append_contexts, finish_contexts,
  execute_tool_batch,
}
use mini_agent_harness.Batch.Inversion.{>>=-eq-ok, >>-eq-ok}
use mini_agent_harness.Batch.Replies.{Replies, run_calls-Replies}

-- only context messages
abbrev pub IsContext : {V : Type 0} → Message V → Type 0
IsContext (context t) = Unit
IsContext _ = ⊥

module _ {V : Type 0} where
  pub contexts-IsSettled : (ms : List (Message V)) → All IsContext ms → IsSettled ms
  contexts-IsSettled [] h = refl
  contexts-IsSettled (context t ∷ ms) h = contexts-IsSettled ms h.1
  contexts-IsSettled (user t ∷ ms) h = elim h.0 [ ]
  contexts-IsSettled (assistant r t cs ∷ ms) h = elim h.0 [ ]
  contexts-IsSettled (tool i n x e o ∷ ms) h = elim h.0 [ ]

  pub Answers-of_Replies :
      (n : ℕ) (calls : List (ToolCall V)) (ms : List (Message V))
      → Replies n calls ms
      → Answers (call_ids calls) ms
  unfolding call_ids
  Answers-of_Replies n [] [] r = tt
  Answers-of_Replies n [] (m ∷ ms) r = elim r [ ]
  Answers-of_Replies n (c ∷ cs) [] r = elim r [ ]
  Answers-of_Replies n (c ∷ cs) (tool i name x e o ∷ ms) r = (r.0.0, Answers-of_Replies n cs ms r.1)
  Answers-of_Replies n (c ∷ cs) (user t ∷ ms) r = elim r.0 [ ]
  Answers-of_Replies n (c ∷ cs) (context t ∷ ms) r = elim r.0 [ ]
  Answers-of_Replies n (c ∷ cs) (assistant x t l ∷ ms) r = elim r.0 [ ]

  -- the session has gained context messages only
  abbrev pub AddsContexts : List (Message V) → List (Message V) → Type 0
  AddsContexts before after = (ms : List (Message V)) × All IsContext ms × (after ≡ before ++ ms)

  AddsContexts-refl : (ms : List (Message V)) → AddsContexts ms ms
  AddsContexts-refl ms = ([], tt, sym (append-nil ms))

  AddsContexts-cons :
      (t : Text) (ms after : List (Message V))
      → AddsContexts (ms ++ context t ∷ []) after
      → AddsContexts ms after
  AddsContexts-cons t ms after (added, c, e) =
      (context t ∷ added, (tt, c), e ∙ append_assoc ms _ added)

  push_injection-AddsContexts :
      (J : Json V) (t : Text) (r : ContextInjectionRecord) (s : SessionState V)
      → AddsContexts s.messages (State.push_injection J t r s).0.messages
  unfolding State.push_injection State.push
  push_injection-AddsContexts J t r s =
      elim (Option-cases (Injection.replace_context_message_metadata J r t)) [
        | inl e ↦ rw (e, State.push_injection) (AddsContexts-refl s.messages)
        | inr (text, e) ↦ rw (e, State.push_injection) (context text ∷ [], (tt, tt), refl)
      ]

  AddsContexts-trans :
      (a b c : List (Message V)) → AddsContexts a b → AddsContexts b c → AddsContexts a c
  AddsContexts-trans a b c (ms, h, e) (ns, g, q) =
      (ms ++ ns, All-append IsContext ms ns h g, q ∙ ap (λ l. l ++ ns) e ∙ append_assoc a ms ns)

  either-AddsContexts :
      {A : Type 0} (ms : List (Message V)) (b : Bool) (x y : SessionState V × A)
      → AddsContexts ms x.0.messages
      → AddsContexts ms y.0.messages
      → let z : SessionState V × A = (if b then x else y) in AddsContexts ms z.0.messages
  either-AddsContexts ms true x y h g = h
  either-AddsContexts ms false x y h g = g

  inject_over-AddsContexts :
      (J : Json V) (t : Text) (r : ContextInjectionRecord) (s : SessionState V)
      (previous : Option ContextInjectionRecord)
      → AddsContexts s.messages (State.inject_over J t r s previous).0.messages
  unfolding State.inject_over
  inject_over-AddsContexts J t r s none = push_injection-AddsContexts J t r s
  inject_over-AddsContexts J t r s (some previous) =
      either-AddsContexts s.messages _ (s, none) _ (AddsContexts-refl s.messages)
        (push_injection-AddsContexts J t _ s)

  injection-AddsContexts :
      (J : Json V) (t : Text) (r : ContextInjectionRecord) (s : SessionState V)
      → AddsContexts s.messages (append_context_injection J t r s).0.messages
  unfolding append_context_injection
  injection-AddsContexts J t r s =
      either-AddsContexts s.messages _ (s, none) _ (AddsContexts-refl s.messages)
        (inject_over-AddsContexts J t r s (State.find_record r.id (State.context_injections J s)))

  append_one-session :
      (t : Text) (r : ContextInjectionRecord) (added : List ContextInjectionRecord)
      (p : SessionState V × Option ContextInjectionRecord)
      → (append_one t r added p).0 ≡ p.0
  unfolding append_one
  append_one-session t r added (s, none) = refl
  append_one-session t r added (s, some r') = refl

module _ {V W : Type 0} (o : Options V W) where
  append_contexts-AddsContexts :
      (ts : List Text) (rs added : List ContextInjectionRecord) (s : SessionState V)
      → AddsContexts s.messages (append_contexts o ts rs added s).0.messages
  unfolding append_contexts State.push
  append_contexts-AddsContexts [] rs added s = AddsContexts-refl s.messages
  append_contexts-AddsContexts (t ∷ ts) [] added s =
      AddsContexts-cons t s.messages _
        (append_contexts-AddsContexts ts [] added (State.push (context t) s))
  append_contexts-AddsContexts (t ∷ ts) (r ∷ rs) added s =
      let z = append_context_injection o.json t r s in
      AddsContexts-trans s.messages z.0.messages _ (injection-AddsContexts o.json t r s) (
        subst
          (λ (x : SessionState V).
            AddsContexts x.messages
              (append_contexts o ts rs (append_one t r added z).1
                (append_one t r added z).0).0.messages)
          (append_one-session t r added z)
          (append_contexts-AddsContexts ts rs (append_one t r added z).1
            (append_one t r added z).0))

  pub finish-session :
      (k : Carried) (s : BatchState V W)
      → (finish_contexts o k s).0.session
        ≡ (append_contexts o k.context_messages k.context_injections [] s.session).0
  unfolding finish_contexts observe pure
  finish-session k s = ground arith

  -- a request whose calls are answered, and the context messages after the answers
  pub finish_contexts-IsSettled :
      (before : List (Message V)) (r x : Text) (calls : List (ToolCall V)) (ms : List (Message V))
      (k : Carried) (s t : BatchState V W)
      → IsSettled before
      → Distinct (call_ids calls)
      → Replies o.max_output_bytes calls ms
      → s.session.messages ≡ before ++ assistant r x calls ∷ ms
      → finish_contexts o k s ≡ (t, ok tt)
      → IsSettled t.session.messages
  finish_contexts-IsSettled before r x calls ms k s t settled d replies answered h =
      let (cs, contexts, p) =
        append_contexts-AddsContexts k.context_messages k.context_injections [] s.session in
      let final : t.session.messages ≡ before ++ ((assistant r x calls ∷ ms) ++ cs) =
        ap (λ p. p.0.session.messages) (sym h)
        ∙ ap (λ (z : SessionState V). z.messages) (finish-session k s)
        ∙ p
        ∙ ap (λ l. l ++ cs) answered
        ∙ append_assoc before (assistant r x calls ∷ ms) cs in
      subst IsSettled (sym final) (
        append-IsSettled before _ settled (
          append-IsSettled (assistant r x calls ∷ ms) cs
            (group-IsSettled r x calls ms d
              (Answers-of_Replies o.max_output_bytes calls ms replies))
            (contexts-IsSettled cs contexts)))

  -- After a batch without a journal error, on a history that ends in the request for its calls,
  -- whose ids are distinct, the whole history is settled.
  pub execute_tool_batch-IsSettled :
      (before : List (Message V)) (r x : Text) (calls : List (ToolCall V)) (s t : BatchState V W)
      → IsSettled before
      → Distinct (call_ids calls)
      → s.session.messages ≡ before ++ assistant r x calls ∷ []
      → execute_tool_batch o calls s ≡ (t, ok tt)
      → IsSettled t.session.messages
  unfolding execute_tool_batch modify
  execute_tool_batch-IsSettled before r x calls s t settled d e h =
      let (s1, e1, h1) = >>-eq-ok (modify (λ u. record u { executed = [] })) _ s h in
      let (s2, k, e2, h2) = >>=-eq-ok (run_calls o calls none_carried) _ s1 h1 in
      let (ms, replies, q) = run_calls-Replies o calls none_carried s1 s2 e2 in
      let start : s1.session.messages ≡ before ++ assistant r x calls ∷ [] =
        ap (λ p. p.0.session.messages) (sym e1) ∙ e in
      finish_contexts-IsSettled before r x calls ms k s2 t settled d replies
        (q ∙ ap (λ l. l ++ ms) start ∙ append_assoc before _ ms) h2
