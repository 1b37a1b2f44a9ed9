-- ===== src/Session/Kept.antt =====
-- crates/mini-agent-core/src/session.rs, `repair_tool_groups`: what of a history it keeps.
use mathlib.Core.Path.{subst}
use mathlib.Core.List.{Sublist, nil-sublist, sublist-append_right}
use mathlib.Core.List.Sublist
use mini_agent_harness.Prelude.{
  ◌≡◌, refl, sym, ap, ◌∙◌, Text, Bool, true, false, Bool-cases, inl, inr, Option, none, some, List,
  [], ◌∷◌, ◌++◌, append_assoc, keep, keep-append, is_nil, text_mem, text_remove,
}
use mini_agent_harness.Protocol.{Message, context, user, assistant, tool}
use mini_agent_harness.Session.Groups.{repair_tool_groups}
use mini_agent_harness.Session.Settled.{
  settled_from, IsSettled, keep_groups, keep_foreign, keep_last, keep_more, settled_foreign,
  settled_last, settled_more, repair-eq-keep,
}

-- Messages of the conversation proper: neither a tool result nor a request for tool calls.
abbrev pub is_conversation : {V : Type 0} → Message V → Bool
is_conversation (context t) = true
is_conversation (user t) = true
is_conversation (assistant r t []) = true
is_conversation (assistant r t (c ∷ cs)) = false
is_conversation (tool id n x e o) = false

abbrev front : {V : Type 0} → Option (List Text) → List (Message V) → List (Message V)
front none held = []
front (some pending) held = held

keep-eq_of_settled :
    {V : Type 0} (o : Option (List Text)) (held ms : List (Message V))
    → settled_from o ms ≡ true
    → keep_groups o held ms ≡ front o held ++ ms
unfolding keep_groups
keep-eq_of_settled none held [] h = refl
keep-eq_of_settled (some pending) held [] h = cc
keep-eq_of_settled none held (assistant r t (c ∷ cs) ∷ ms) h = keep-eq_of_settled (some _) _ ms h
keep-eq_of_settled none held (assistant r t [] ∷ ms) h =
    ap (λ l. assistant r t [] ∷ l) (keep-eq_of_settled none [] ms h)
keep-eq_of_settled none held (tool id n x e s ∷ ms) h =
    ap (λ l. tool id n x e s ∷ l) (keep-eq_of_settled none [] ms h)
keep-eq_of_settled none held (user t ∷ ms) h =
    ap (λ l. user t ∷ l) (keep-eq_of_settled none [] ms h)
keep-eq_of_settled none held (context t ∷ ms) h =
    ap (λ l. context t ∷ l) (keep-eq_of_settled none [] ms h)
keep-eq_of_settled (some pending) held (tool id n x e s ∷ ms) h =
    elim (Bool-cases (text_mem id pending)) [
      | inr foreign ↦ cc (settled_foreign id n x e s pending held ms foreign)
      | inl known ↦ elim (Bool-cases (is_nil (text_remove id pending))) [
        | inl last ↦
            keep_last id n x e s pending held ms known last
            ∙ ap (λ l. held ++ tool id n x e s ∷ l)
                (keep-eq_of_settled none [] ms
                  (sym (settled_last id n x e s pending held ms known last) ∙ h))
        | inr more ↦
            keep_more id n x e s pending held ms known more
            ∙ keep-eq_of_settled (some (text_remove id pending)) (held ++ tool id n x e s ∷ []) ms
                (sym (settled_more id n x e s pending held ms known more) ∙ h)
            ∙ append_assoc held _ ms
      ]
    ]
keep-eq_of_settled (some pending) held (assistant r t cs ∷ ms) h = cc
keep-eq_of_settled (some pending) held (user t ∷ ms) h = cc
keep-eq_of_settled (some pending) held (context t ∷ ms) h = cc

-- A settled history is left as it is.
pub repair-eq_of_settled :
    {V : Type 0} (ms : List (Message V)) → IsSettled ms → repair_tool_groups ms ≡ ms
repair-eq_of_settled ms h = repair-eq-keep ms ∙ keep-eq_of_settled none [] ms h

conversation-keep :
    {V : Type 0} (o : Option (List Text)) (held ms : List (Message V))
    → keep is_conversation (front o held) ≡ []
    → keep is_conversation (keep_groups o held ms) ≡ keep is_conversation ms
unfolding keep_groups
conversation-keep none held [] h = refl
conversation-keep (some pending) held [] h = refl
conversation-keep none held (assistant r t (c ∷ cs) ∷ ms) h = conversation-keep (some _) _ ms refl
conversation-keep none held (assistant r t [] ∷ ms) h =
    ap (λ l. assistant r t [] ∷ l) (conversation-keep none [] ms refl)
conversation-keep none held (tool id n x e s ∷ ms) h = conversation-keep none [] ms refl
conversation-keep none held (user t ∷ ms) h =
    ap (λ l. user t ∷ l) (conversation-keep none [] ms refl)
conversation-keep none held (context t ∷ ms) h =
    ap (λ l. context t ∷ l) (conversation-keep none [] ms refl)
conversation-keep (some pending) held (assistant r t (c ∷ cs) ∷ ms) h =
    conversation-keep (some _) _ ms refl
conversation-keep (some pending) held (assistant r t [] ∷ ms) h =
    ap (λ l. assistant r t [] ∷ l) (conversation-keep none [] ms refl)
conversation-keep (some pending) held (tool id n x e s ∷ ms) h =
    elim (Bool-cases (text_mem id pending)) [
      | inr foreign ↦
          ap (keep is_conversation) (keep_foreign id n x e s pending held ms foreign)
          ∙ conversation-keep none [] ms refl
      | inl known ↦ elim (Bool-cases (is_nil (text_remove id pending))) [
        | inl last ↦
            ap (keep is_conversation) (keep_last id n x e s pending held ms known last)
            ∙ keep-append is_conversation held _
            ∙ ap (λ l. l ++ keep is_conversation (keep_groups none [] ms)) h
            ∙ conversation-keep none [] ms refl
        | inr more ↦
            ap (keep is_conversation) (keep_more id n x e s pending held ms known more)
            ∙ conversation-keep (some (text_remove id pending)) (held ++ tool id n x e s ∷ []) ms
                (keep-append is_conversation held _ ∙ ap (λ l. l ++ []) h)
      ]
    ]
conversation-keep (some pending) held (user t ∷ ms) h =
    ap (λ l. user t ∷ l) (conversation-keep none [] ms refl)
conversation-keep (some pending) held (context t ∷ ms) h =
    ap (λ l. context t ∷ l) (conversation-keep none [] ms refl)

-- The repair drops no user, context or plain assistant message and keeps their order.
pub conversation-repair :
    {V : Type 0} (ms : List (Message V))
    → keep is_conversation (repair_tool_groups ms) ≡ keep is_conversation ms
conversation-repair ms =
    ap (keep is_conversation) (repair-eq-keep ms) ∙ conversation-keep none [] ms refl

Sublist-keep :
    {V : Type 0} (o : Option (List Text)) (held ms : List (Message V))
    → Sublist (keep_groups o held ms) (front o held ++ ms)
unfolding keep_groups
Sublist-keep none held [] = Sublist.refl []
Sublist-keep (some pending) held [] = nil-sublist _
Sublist-keep none held (assistant r t (c ∷ cs) ∷ ms) = Sublist-keep (some _) _ ms
Sublist-keep none held (assistant r t [] ∷ ms) = Sublist.cons-cons _ (Sublist-keep none [] ms)
Sublist-keep none held (tool id n x e s ∷ ms) = Sublist.cons-cons _ (Sublist-keep none [] ms)
Sublist-keep none held (user t ∷ ms) = Sublist.cons-cons _ (Sublist-keep none [] ms)
Sublist-keep none held (context t ∷ ms) = Sublist.cons-cons _ (Sublist-keep none [] ms)
Sublist-keep (some pending) held (assistant r t (c ∷ cs) ∷ ms) =
    Sublist.trans (Sublist-keep (some _) _ ms) (sublist-append_right held _)
Sublist-keep (some pending) held (assistant r t [] ∷ ms) =
    Sublist.trans (Sublist.cons-cons _ (Sublist-keep none [] ms)) (sublist-append_right held _)
Sublist-keep (some pending) held (tool id n x e s ∷ ms) = elim (Bool-cases (text_mem id pending)) [
  | inr foreign ↦
      subst (λ l. Sublist l (held ++ tool id n x e s ∷ ms))
        (sym (keep_foreign id n x e s pending held ms foreign))
        (Sublist.trans (Sublist.cons _ (Sublist-keep none [] ms)) (sublist-append_right held _))
  | inl known ↦ elim (Bool-cases (is_nil (text_remove id pending))) [
    | inl last ↦
        subst (λ l. Sublist l (held ++ tool id n x e s ∷ ms))
          (sym (keep_last id n x e s pending held ms known last))
          (Sublist.append (Sublist.refl held) (Sublist.cons-cons _ (Sublist-keep none [] ms)))
    | inr more ↦
        subst (λ l. Sublist l (held ++ tool id n x e s ∷ ms))
          (sym (keep_more id n x e s pending held ms known more))
          (subst (Sublist _) (append_assoc held _ ms)
            (Sublist-keep (some (text_remove id pending)) (held ++ tool id n x e s ∷ []) ms))
  ]
]
Sublist-keep (some pending) held (user t ∷ ms) =
    Sublist.trans (Sublist.cons-cons _ (Sublist-keep none [] ms)) (sublist-append_right held _)
Sublist-keep (some pending) held (context t ∷ ms) =
    Sublist.trans (Sublist.cons-cons _ (Sublist-keep none [] ms)) (sublist-append_right held _)

-- The repair only drops messages: the result is a sublist of the history.
pub Sublist-repair : {V : Type 0} (ms : List (Message V)) → Sublist (repair_tool_groups ms) ms
Sublist-repair ms = subst (λ l. Sublist l ms) (sym (repair-eq-keep ms)) (Sublist-keep none [] ms)
