-- ===== src/Session/Complete.antt =====
-- Histories put together from settled ones, and groups of a request with its answers.
use mathlib.Core.Path.{subst}
use mini_agent_harness.Prelude.{
  append-nil, ◌≡◌, refl, sym, ap, ◌∙◌, Text, Bool, true, false, Bool-cases, inl, inr, Option, none,
  some, List, [], ◌∷◌, ◌++◌, ◌||◌, is_nil, text_mem, text_remove, text_eq_iff, text_eq_refl,
  text_mem-remove, text_mem-insert, text_insert, nil_of_no_mem, not_nil_of_mem, Distinct, arith,
  if◌then◌else◌,
}
use mini_agent_harness.Protocol.{
  Message, ToolCall, ToolExecutionStatus, context, user, assistant, tool,
}
use mini_agent_harness.Session.Groups.{call_ids, extend_ids}
use mini_agent_harness.Session.Settled.{
  settled_from, IsSettled, settled_last, settled_more, settled_foreign,
}

module _ {V : Type 0} where
  settled_from-append :
      (o : Option (List Text)) (xs ys : List (Message V))
      → settled_from o xs ≡ true
      → settled_from o (xs ++ ys) ≡ settled_from none ys
  settled_from-append none [] ys h = refl
  settled_from-append (some p) [] ys h = cc
  settled_from-append none (assistant r t (c ∷ cs) ∷ xs) ys h = settled_from-append (some _) xs ys h
  settled_from-append none (assistant r t [] ∷ xs) ys h = settled_from-append none xs ys h
  settled_from-append none (tool id n x e o ∷ xs) ys h = settled_from-append none xs ys h
  settled_from-append none (user t ∷ xs) ys h = settled_from-append none xs ys h
  settled_from-append none (context t ∷ xs) ys h = settled_from-append none xs ys h
  settled_from-append (some p) (tool id n x e o ∷ xs) ys h = elim (Bool-cases (text_mem id p)) [
    | inr foreign ↦ cc (settled_foreign id n x e o p [] xs foreign)
    | inl known ↦ elim (Bool-cases (is_nil (text_remove id p))) [
      | inl last ↦
          settled_last id n x e o p [] (xs ++ ys) known last
          ∙ settled_from-append none xs ys (sym (settled_last id n x e o p [] xs known last) ∙ h)
      | inr more ↦
          settled_more id n x e o p [] (xs ++ ys) known more
          ∙ settled_from-append (some (text_remove id p)) xs ys
              (sym (settled_more id n x e o p [] xs known more) ∙ h)
    ]
  ]
  settled_from-append (some p) (assistant r t cs ∷ xs) ys h = cc
  settled_from-append (some p) (user t ∷ xs) ys h = cc
  settled_from-append (some p) (context t ∷ xs) ys h = cc

  -- A settled history followed by a settled one is settled.
  pub append-IsSettled :
      (xs ys : List (Message V)) → IsSettled xs → IsSettled ys → IsSettled (xs ++ ys)
  append-IsSettled xs ys h g = settled_from-append none xs ys h ∙ g

-- One tool message for each call id, in order.
abbrev pub Answers : {V : Type 0} → List Text → List (Message V) → Type 0
Answers [] [] = Unit
Answers (i ∷ is) (tool id n x e o ∷ ms) = (id ≡ i) × Answers is ms
Answers _ _ = ⊥

-- the group is open as long as calls are pending
abbrev opened : List Text → Option (List Text)
opened p = if is_nil p then none else some p

abbrev Same : List Text → List Text → Type 0
Same p is = (x : Text) → text_mem x p ≡ text_mem x is

Same-remove :
    (p : List Text) (i : Text) (is : List Text)
    → text_mem i is ≡ false
    → Same p (i ∷ is)
    → Same (text_remove i p) is
Same-remove p i is fresh h x = ground (arith, text_mem-remove i x p, h x, text_eq_iff i x, fresh)

pub text_mem-extend :
    (x : Text) (p is : List Text) → text_mem x (extend_ids p is) ≡ (text_mem x is || text_mem x p)
unfolding extend_ids
text_mem-extend x p [] = refl
text_mem-extend x p (i ∷ is) =
    ground (arith, text_mem-extend x (text_insert i p) is, text_mem-insert i x p)

module _ {V : Type 0} where
  -- one answer, where the rest of the group is known to be answered
  answered-step :
      (p : List Text) (i : Text) (is : List Text) (id n x : Text) (e : Bool)
      (o : Option ToolExecutionStatus) (ms ys : List (Message V))
      → Same p (i ∷ is)
      → id ≡ i
      → settled_from (opened (text_remove id p)) (ms ++ ys) ≡ settled_from none ys
      → settled_from (opened p) (tool id n x e o ∷ (ms ++ ys)) ≡ settled_from none ys
  answered-step p i is id n x e o ms ys h a rest =
      rw (not_nil_of_mem id p known) (elim (Bool-cases (is_nil (text_remove id p))) [
        | inl last ↦ settled_last id n x e o p [] (ms ++ ys) known last ∙ sym (state last) ∙ rest
        | inr more ↦ settled_more id n x e o p [] (ms ++ ys) known more ∙ sym (state more) ∙ rest
      ])
    where
      known : text_mem id p ≡ true
      known = ground (arith, h id, a, text_eq_refl i)

      state :
          {b : Bool}
          → is_nil (text_remove id p) ≡ b
          → settled_from (opened (text_remove id p)) (ms ++ ys)
            ≡ settled_from (if b then none else some (text_remove id p)) (ms ++ ys)
      state q = ap (λ b. settled_from (if b then none else some (text_remove id p)) (ms ++ ys)) q

  answered :
      (p is : List Text) (ms ys : List (Message V))
      → Same p is
      → Distinct is
      → Answers is ms
      → settled_from (opened p) (ms ++ ys) ≡ settled_from none ys
  answered p [] [] ys h d a = rw (nil_of_no_mem p h) refl
  answered p [] (m ∷ ms) ys h d a = elim a [ ]
  answered p (i ∷ is) [] ys h d a = elim a [ ]
  answered p (i ∷ is) (tool id n x e o ∷ ms) ys h d a =
      answered-step p i is id n x e o ms ys h a.0 (
        answered (text_remove id p) is ms ys
          (subst (λ j. Same (text_remove j p) is) (sym a.0) (Same-remove p i is d.0 h)) d.1 a.1)
  answered p (i ∷ is) (user t ∷ ms) ys h d a = elim a [ ]
  answered p (i ∷ is) (context t ∷ ms) ys h d a = elim a [ ]
  answered p (i ∷ is) (assistant r t cs ∷ ms) ys h d a = elim a [ ]

  -- A request for calls with distinct ids and the answers to them, in order, is settled.
  pub group-IsSettled :
      (r t : Text) (calls : List (ToolCall V)) (ms : List (Message V))
      → Distinct (call_ids calls)
      → Answers (call_ids calls) ms
      → IsSettled (assistant r t calls ∷ ms)
  unfolding call_ids
  group-IsSettled r t [] [] d a = refl
  group-IsSettled r t [] (m ∷ ms) d a = elim a [ ]
  group-IsSettled r t (c ∷ cs) ms d a =
      sym (ap (λ b. settled_from (if b then none else some ids) ms) open_ids)
      ∙ ap (settled_from (opened ids)) (sym (append-nil ms))
      ∙ answered ids (call_ids (c ∷ cs)) ms [] same d a
    where
      ids : List Text
      ids = extend_ids [] (call_ids (c ∷ cs))

      same : Same ids (call_ids (c ∷ cs))
      same x = ground (arith, text_mem-extend x [] (call_ids (c ∷ cs)))

      open_ids : is_nil ids ≡ false
      open_ids = not_nil_of_mem c.id ids (same c.id ∙ rw (text_eq_refl c.id))
