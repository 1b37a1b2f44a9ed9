-- ===== src/Capabilities/Schedule/Forward.antt =====
-- crates/mini-agent-capabilities/src/scheduled_task.rs: how an operation changes one marker.
use mathlib.Core.Path.{subst}
use mini_agent_harness.Prelude.{
  ℕ, ◌≡◌, refl, sym, ap, ◌∙◌, ◌⊎◌, inl, inr, Text, Bool-cases, none, some, List, [], ◌∷◌, text_eq,
  text_eq_iff, leb,
}
use mini_agent_harness.Capabilities.Schedule.Manager

-- What the operations may make of a task: one that is not scheduled stays as it is, and every task
-- keeps its id, its owner, its summary and its times of creation and of the delay's end.
pub record IsForward (s t : Manager.ScheduledTask) : Type 0 where
  pub task_id : t.task_id ≡ s.task_id
  pub owner : t.owner_thread_id ≡ s.owner_thread_id
  pub summary : t.summary ≡ s.summary
  pub created : t.created_at ≡ s.created_at
  pub due : t.due_at ≡ s.due_at
  pub moves : (t ≡ s) ⊎ (s.state ≡ Manager.scheduled)

IsForward-refl : (s : Manager.ScheduledTask) → IsForward s s
IsForward-refl s = record {
  task_id = refl;
  owner = refl;
  summary = refl;
  created = refl;
  due = refl;
  moves = inl refl;
}

IsForward-trans : (a b c : Manager.ScheduledTask) → IsForward a b → IsForward b c → IsForward a c
IsForward-trans a b c f g = record {
  task_id = g.task_id ∙ f.task_id;
  owner = g.owner ∙ f.owner;
  summary = g.summary ∙ f.summary;
  created = g.created ∙ f.created;
  due = g.due ∙ f.due;
  moves = moves f.moves g.moves;
}
  where
    moves :
        (b ≡ a) ⊎ (a.state ≡ Manager.scheduled)
        → (c ≡ b) ⊎ (b.state ≡ Manager.scheduled)
        → (c ≡ a) ⊎ (a.state ≡ Manager.scheduled)
    moves (inr h) k = inr h
    moves (inl h) (inl k) = inl (k ∙ h)
    moves (inl h) (inr k) = inr (ap (λ x. x.state) (sym h) ∙ k)

refresh_task-IsForward :
    (now : ℕ) (s : Manager.ScheduledTask) → IsForward s (Manager.refresh_task now s)
unfolding Manager.refresh_task
refresh_task-IsForward now s = elim (Bool-cases (text_eq s.state Manager.scheduled)) [
  | inr other ↦ rw other (IsForward-refl s)
  | inl waits ↦ elim (Bool-cases (leb s.due_at now)) [
    | inr early ↦ rw (waits, early) (IsForward-refl s)
    | inl over ↦
        rw (waits, over)
          (record {
            task_id = refl;
            owner = refl;
            summary = refl;
            created = refl;
            due = refl;
            moves = inr ((text_eq_iff s.state Manager.scheduled).0 waits);
          })
  ]
]

pub cancelled_task-IsForward :
    (now : ℕ) (s : Manager.ScheduledTask) → IsForward s (Manager.cancelled_task now s)
unfolding Manager.cancelled_task
cancelled_task-IsForward now s = elim (Bool-cases (text_eq s.state Manager.scheduled)) [
  | inr other ↦ rw other (IsForward-refl s)
  | inl waits ↦ rw waits (record {
    task_id = refl;
    owner = refl;
    summary = refl;
    created = refl;
    due = refl;
    moves = inr ((text_eq_iff s.state Manager.scheduled).0 waits);
  })
]

lookup-refresh_due :
    (now : ℕ) (id : Text) (ts : List (Text × Manager.ScheduledTask)) (t : Manager.ScheduledTask)
    → Manager.lookup id ts ≡ some t
    → Manager.lookup id (Manager.refresh_due now ts) ≡ some (Manager.refresh_task now t)
unfolding Manager.lookup Manager.refresh_due
lookup-refresh_due now id [] t h = cc
lookup-refresh_due now id ((k, u) ∷ ts) t h = elim (Bool-cases (text_eq k id)) [
  | inl here ↦ rw here (let same : some u ≡ some t = rw here at h in let u_t : u ≡ t = cc in rw u_t)
  | inr there ↦ rw there (lookup-refresh_due now id ts t (rw there at h))
]

lookup-replace :
    (id other : Text) (u : Manager.ScheduledTask) (ts : List (Text × Manager.ScheduledTask))
    (t : Manager.ScheduledTask)
    → Manager.lookup other ts ≡ some t
    → (Manager.lookup other (Manager.replace id u ts) ≡ some t)
      ⊎ ((Manager.lookup id ts ≡ some t)
          × (Manager.lookup other (Manager.replace id u ts) ≡ some u))
unfolding Manager.lookup Manager.replace
lookup-replace id other u [] t h = cc
lookup-replace id other u ((k, v) ∷ ts) t h = elim (Bool-cases (text_eq k id)) [
  | inl here ↦ elim (Bool-cases (text_eq k other)) [
    | inl same ↦ rw (here, same) (inr (rw same at h, refl))
    | inr apart ↦ rw (here, apart) (inl (rw apart at h))
  ]
  | inr there ↦ elim (Bool-cases (text_eq k other)) [
    | inl same ↦ rw (there, same) (inl (rw same at h))
    | inr apart ↦ rw (there, apart) (lookup-replace id other u ts t (rw apart at h))
  ]
]

-- every task of the first list is in the second, moved on
abbrev pub IsOnward :
    List (Text × Manager.ScheduledTask) → List (Text × Manager.ScheduledTask) → Type 0
IsOnward ts us =
    (id : Text) (t : Manager.ScheduledTask)
    → Manager.lookup id ts ≡ some t
    → (u : Manager.ScheduledTask) × (Manager.lookup id us ≡ some u) × IsForward t u

pub IsOnward-refl : (ts : List (Text × Manager.ScheduledTask)) → IsOnward ts ts
IsOnward-refl ts id t h = (t, h, IsForward-refl t)

pub IsOnward-trans :
    (a b c : List (Text × Manager.ScheduledTask)) → IsOnward a b → IsOnward b c → IsOnward a c
IsOnward-trans a b c f g id t h =
    let (u, k, fu) = f id t h in let (v, l, gv) = g id u k in (v, l, IsForward-trans t u v fu gv)

pub refresh_due-IsOnward :
    (now : ℕ) (ts : List (Text × Manager.ScheduledTask)) → IsOnward ts (Manager.refresh_due now ts)
refresh_due-IsOnward now ts id t h =
    (Manager.refresh_task now t, lookup-refresh_due now id ts t h, refresh_task-IsForward now t)

pub replace-IsOnward :
    (id : Text) (u v : Manager.ScheduledTask) (ts : List (Text × Manager.ScheduledTask))
    → Manager.lookup id ts ≡ some u
    → IsForward u v
    → IsOnward ts (Manager.replace id v ts)
replace-IsOnward id u v ts e f other t h = elim (lookup-replace id other v ts t h) [
  | inl kept ↦ (t, kept, IsForward-refl t)
  | inr (old, new) ↦
      let same : some t ≡ some u = sym old ∙ e in
      let t_u : u ≡ t = cc in (v, new, subst (λ x. IsForward x v) t_u f)
]

pub insert-IsOnward :
    (id : Text) (u : Manager.ScheduledTask) (ts : List (Text × Manager.ScheduledTask))
    → Manager.lookup id ts ≡ none
    → IsOnward ts ((id, u) ∷ ts)
unfolding Manager.lookup
insert-IsOnward id u ts missing other t h = elim (Bool-cases (text_eq id other)) [
  | inl same ↦
      let e : id ≡ other = (text_eq_iff id other).0 same in
      let found : Manager.lookup id ts ≡ some t =
        subst (λ x. Manager.lookup x ts ≡ some t) (sym e) h in
      absurd cc
  | inr apart ↦ rw apart (t, h, IsForward-refl t)
]
