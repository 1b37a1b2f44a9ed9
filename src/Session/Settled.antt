-- ===== src/Session/Settled.antt =====
-- crates/mini-agent-core/src/session.rs: which histories a provider can replay, and the repair.
use mathlib.Core.Path.{subst}
use mathlib.Core.List.{foldl}
use mini_agent_harness.Prelude.{
  ◌≡◌, refl, sym, ap, ◌∙◌, Text, Bool, true, false, Bool-cases, inl, inr, Option, none, some, List,
  [], ◌∷◌, ◌++◌, append_assoc, append-nil, length, take-append, is_nil, nil_of_is_nil, text_mem,
  text_remove, if◌then◌else◌,
}
use mini_agent_harness.Protocol.{Message, ToolExecutionStatus, context, user, assistant, tool}
use mini_agent_harness.Session.Groups.{
  RepairState, call_ids, extend_ids, repair_message, close_repair, repair_tool_groups,
}

module _ {V : Type 0} where
  -- `none`: no group is open; `some pending`: the calls of the open group without a result.
  abbrev pub settled_from : Option (List Text) → List (Message V) → Bool
  settled_from none [] = true
  settled_from (some pending) [] = false
  settled_from none (assistant r t (c ∷ cs) ∷ ms) =
      settled_from (some (extend_ids [] (call_ids (c ∷ cs)))) ms
  settled_from none (m ∷ ms) = settled_from none ms
  settled_from (some pending) (tool id n x e o ∷ ms) = elim (text_mem id pending) [
    | false ↦ false
    | true ↦
        settled_from
          (if is_nil (text_remove id pending) then none else some (text_remove id pending)) ms
  ]
  settled_from (some pending) (m ∷ ms) = false

  -- Every assistant message with tool calls is followed at once by one result for each call id.
  abbrev pub IsSettled : List (Message V) → Type 0
  IsSettled ms = settled_from none ms ≡ true

  -- The same loop as a recursion that holds back the open group in `held`.
  unfoldable pub keep_groups :
      Option (List Text) → List (Message V) → List (Message V) → List (Message V)
  keep_groups o held [] = []
  keep_groups o held (assistant r t (c ∷ cs) ∷ ms) =
      keep_groups (some (extend_ids [] (call_ids (c ∷ cs)))) (assistant r t (c ∷ cs) ∷ []) ms
  keep_groups none held (tool id n x e s ∷ ms) = tool id n x e s ∷ keep_groups none [] ms
  keep_groups (some pending) held (tool id n x e s ∷ ms) = elim (text_mem id pending) [
    | false ↦ keep_groups none [] ms
    | true ↦ elim (is_nil (text_remove id pending)) [
      | true ↦ held ++ tool id n x e s ∷ keep_groups none [] ms
      | false ↦ keep_groups (some (text_remove id pending)) (held ++ tool id n x e s ∷ []) ms
    ]
  ]
  keep_groups o held (m ∷ ms) = m ∷ keep_groups none [] ms

  -- the three fates of a result for an open group
  module _ (id n x : Text) (e : Bool) (o : Option ToolExecutionStatus) (pending : List Text)
      (held ms : List (Message V)) where
    pub keep_foreign :
        text_mem id pending ≡ false
        → keep_groups (some pending) held (tool id n x e o ∷ ms) ≡ keep_groups none [] ms
    unfolding keep_groups
    keep_foreign h = rw (h, keep_groups)

    pub keep_last :
        text_mem id pending ≡ true
        → is_nil (text_remove id pending) ≡ true
        → keep_groups (some pending) held (tool id n x e o ∷ ms)
          ≡ held ++ tool id n x e o ∷ keep_groups none [] ms
    unfolding keep_groups
    keep_last h l = rw (h, l, keep_groups)

    pub keep_more :
        text_mem id pending ≡ true
        → is_nil (text_remove id pending) ≡ false
        → keep_groups (some pending) held (tool id n x e o ∷ ms)
          ≡ keep_groups (some (text_remove id pending)) (held ++ tool id n x e o ∷ []) ms
    unfolding keep_groups
    keep_more h l = rw (h, l, keep_groups)

    pub settled_foreign :
        text_mem id pending ≡ false → settled_from (some pending) (tool id n x e o ∷ ms) ≡ false
    settled_foreign h = rw (h, settled_from)

    pub settled_last :
        text_mem id pending ≡ true
        → is_nil (text_remove id pending) ≡ true
        → settled_from (some pending) (tool id n x e o ∷ ms) ≡ settled_from none ms
    settled_last h l = rw (h, l, settled_from)

    pub settled_more :
        text_mem id pending ≡ true
        → is_nil (text_remove id pending) ≡ false
        → settled_from (some pending) (tool id n x e o ∷ ms)
          ≡ settled_from (some (text_remove id pending)) ms
    settled_more h l = rw (h, l, settled_from)

  -- the loop's state after `done`, with `held` in the open group if there is one
  abbrev at : Option (List Text) → List (Message V) → List (Message V) → RepairState V
  at none done held = record { repaired = done; pending = []; group_start = none }
  at (some pending) done held = record {
    repaired = done ++ held;
    pending = pending;
    group_start = some (length done);
  }

loop :
    {V : Type 0} (o : Option (List Text)) (done held ms : List (Message V))
    → close_repair (foldl repair_message (at o done held) ms) ≡ done ++ keep_groups o held ms
unfolding keep_groups repair_message close_repair
loop none done held [] = sym (append-nil done)
loop none done held (assistant r t (c ∷ cs) ∷ ms) =
    loop (some (extend_ids (c.id ∷ []) (call_ids cs))) done (assistant r t (c ∷ cs) ∷ []) ms
loop none done held (assistant r t [] ∷ ms) =
    loop none (done ++ assistant r t [] ∷ []) [] ms ∙ append_assoc done _ _
loop none done held (tool id n x e s ∷ ms) =
    loop none (done ++ tool id n x e s ∷ []) [] ms ∙ append_assoc done _ _
loop none done held (user t ∷ ms) = loop none (done ++ user t ∷ []) [] ms ∙ append_assoc done _ _
loop none done held (context t ∷ ms) =
    loop none (done ++ context t ∷ []) [] ms ∙ append_assoc done _ _
loop (some pending) done held [] = take-append done held ∙ sym (append-nil done)
loop (some pending) done held (assistant r t (c ∷ cs) ∷ ms) =
    rw (take-append done held)
      (loop (some (extend_ids (c.id ∷ []) (call_ids cs))) done (assistant r t (c ∷ cs) ∷ []) ms)
loop (some pending) done held (assistant r t [] ∷ ms) =
    rw (take-append done held)
      (loop none (done ++ assistant r t [] ∷ []) [] ms ∙ append_assoc done _ _)
loop (some pending) done held (tool id n x e s ∷ ms) = elim (Bool-cases (text_mem id pending)) [
  | inr foreign ↦
      rw (foreign, take-append done held) (loop none done [] ms)
      ∙ ap (λ l. done ++ l) (sym (keep_foreign id n x e s pending held ms foreign))
  | inl known ↦ elim (Bool-cases (is_nil (text_remove id pending))) [
    | inl last ↦
        rw (known, nil_of_is_nil _ last)
          (loop none ((done ++ held) ++ tool id n x e s ∷ []) [] ms
            ∙ append_assoc (done ++ held) _ _
            ∙ append_assoc done held _
            ∙ ap (λ l. done ++ l) (sym (keep_last id n x e s pending held ms known last)))
    | inr more ↦
        rw (known, more, append_assoc done held (tool id n x e s ∷ []))
          (loop (some (text_remove id pending)) done (held ++ tool id n x e s ∷ []) ms
            ∙ ap (λ l. done ++ l) (sym (keep_more id n x e s pending held ms known more)))
  ]
]
loop (some pending) done held (user t ∷ ms) =
    rw (take-append done held) (loop none (done ++ user t ∷ []) [] ms ∙ append_assoc done _ _)
loop (some pending) done held (context t ∷ ms) =
    rw (take-append done held) (loop none (done ++ context t ∷ []) [] ms ∙ append_assoc done _ _)

pub repair-eq-keep :
    {V : Type 0} (ms : List (Message V)) → repair_tool_groups ms ≡ keep_groups none [] ms
unfolding repair_tool_groups
repair-eq-keep ms = loop none [] [] ms

-- an open group whose calls are answered by what `held` holds, so far
abbrev Opens : {V : Type 0} → Option (List Text) → List (Message V) → Type 0
Opens {V} none held = Unit
Opens {V} (some pending) held =
    (rest : List (Message V)) → settled_from none (held ++ rest) ≡ settled_from (some pending) rest

keep-settled :
    {V : Type 0} (o : Option (List Text)) (held ms : List (Message V))
    → Opens o held
    → settled_from none (keep_groups o held ms) ≡ true
unfolding keep_groups
keep-settled none held [] h = refl
keep-settled (some pending) held [] h = refl
keep-settled none held (assistant r t (c ∷ cs) ∷ ms) h = keep-settled (some _) _ ms (λ rest. refl)
keep-settled none held (assistant r t [] ∷ ms) h = keep-settled none [] ms tt
keep-settled none held (tool id n x e s ∷ ms) h = keep-settled none [] ms tt
keep-settled none held (user t ∷ ms) h = keep-settled none [] ms tt
keep-settled none held (context t ∷ ms) h = keep-settled none [] ms tt
keep-settled (some pending) held (assistant r t (c ∷ cs) ∷ ms) h =
    keep-settled (some _) _ ms (λ rest. refl)
keep-settled (some pending) held (assistant r t [] ∷ ms) h = keep-settled none [] ms tt
keep-settled (some pending) held (tool id n x e s ∷ ms) h =
    elim (Bool-cases (text_mem id pending)) [
      | inr foreign ↦
          subst IsSettled (sym (keep_foreign id n x e s pending held ms foreign))
            (keep-settled none [] ms tt)
      | inl known ↦ elim (Bool-cases (is_nil (text_remove id pending))) [
        | inl last ↦ subst IsSettled (sym (keep_last id n x e s pending held ms known last)) (
            h (tool id n x e s ∷ keep_groups none [] ms)
            ∙ settled_last id n x e s pending held (keep_groups none [] ms) known last
            ∙ keep-settled none [] ms tt)
        | inr more ↦ subst IsSettled (sym (keep_more id n x e s pending held ms known more)) (
            keep-settled (some (text_remove id pending)) (held ++ tool id n x e s ∷ []) ms λ rest.
              ap (settled_from none) (append_assoc held (tool id n x e s ∷ []) rest)
              ∙ h (tool id n x e s ∷ rest)
              ∙ settled_more id n x e s pending held rest known more)
      ]
    ]
keep-settled (some pending) held (user t ∷ ms) h = keep-settled none [] ms tt
keep-settled (some pending) held (context t ∷ ms) h = keep-settled none [] ms tt

-- Whatever the history, every tool group that the repair keeps is complete.
pub repair-IsSettled : {V : Type 0} (ms : List (Message V)) → IsSettled (repair_tool_groups ms)
repair-IsSettled ms = rw (repair-eq-keep ms) (keep-settled none [] ms tt)
