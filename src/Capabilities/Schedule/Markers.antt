-- ===== src/Capabilities/Schedule/Markers.antt =====
-- crates/mini-agent-capabilities/src/scheduled_task.rs: the operations of clients, one after
-- another.
use mini_agent_harness.Prelude.{
  ℕ, ◌≡◌, inl, inr, Text, Bool, true, false, Option-cases, some, List, [], ◌∷◌, not, leb, ◌&&◌,
  if◌then◌else◌,
}
use mini_agent_harness.Capabilities.Schedule.Manager
use mini_agent_harness.Capabilities.Schedule.Manager.{ManagerState, ScheduledTask, Answer}
use mini_agent_harness.Capabilities.Schedule.Forward.{
  IsForward, IsOnward, IsOnward-refl, IsOnward-trans, refresh_due-IsOnward, replace-IsOnward,
  insert-IsOnward, cancelled_task-IsForward,
}

-- what a client does with the manager, short of `close_all`, with the times that the clock has
pub data Operation : Type 0 where
  bind : Text → Operation
  disable : Operation
  create : Text → Text → ℕ → Text → ℕ → ℕ → Operation
  read : Text → Text → ℕ → Operation
  list : Text → ℕ → Operation
  cancel : Text → Text → ℕ → ℕ → Operation

unfoldable pub apply : Operation → ManagerState → ManagerState
unfolding Manager.bind_owner Manager.disable Manager.create_delay Manager.read Manager.list
    Manager.cancel
apply (Operation.bind thread_id) m = Manager.bind_owner thread_id m
apply Operation.disable m = Manager.disable m
apply (Operation.create thread_id id delay summary now then_now) m =
    (Manager.create_delay thread_id id delay summary now then_now m).0
apply (Operation.read thread_id id now) m = (Manager.read thread_id id now m).0
apply (Operation.list thread_id now) m = (Manager.list thread_id now m).0
apply (Operation.cancel thread_id id now then_now) m =
    (Manager.cancel thread_id id now then_now m).0

unfoldable pub apply_all : List Operation → ManagerState → ManagerState
unfolding apply
apply_all [] m = m
apply_all (o ∷ os) m = apply_all os (apply o m)

abbrev Keeps : ManagerState → ManagerState → Type 0
Keeps m n = IsOnward m.tasks n.tasks

-- both branches of a test
state-Keeps :
    (m : ManagerState) (b : Bool) (x y : ManagerState)
    → Keeps m x
    → Keeps m y
    → Keeps m (if b then x else y)
state-Keeps m true x y h k = h
state-Keeps m false x y h k = k

answer-Keeps :
    {A : Type 0} (m : ManagerState) (b : Bool) (x y : Answer A)
    → Keeps m x.0
    → Keeps m y.0
    → Keeps m (if b then x else y).0
answer-Keeps m true x y h k = h
answer-Keeps m false x y h k = k

action-Keeps :
    {A : Type 0} (m : ManagerState) (b : Bool) (f g : ManagerState → Answer A)
    → Keeps m (f m).0
    → Keeps m (g m).0
    → Keeps m ((if b then f else g) m).0
action-Keeps m true f g h k = h
action-Keeps m false f g h k = k

as_owner-Keeps :
    {A : Type 0} (thread_id : Text) (f : ManagerState → Answer A) (m : ManagerState)
    → Keeps m (f m).0
    → Keeps m (Manager.as_owner thread_id f m).0
unfolding Manager.as_owner
as_owner-Keeps thread_id f m h =
    answer-Keeps m m.poisoned _ _ (IsOnward-refl m.tasks)
      (answer-Keeps m (Manager.is_other m.owner_thread_id thread_id) _ _ (IsOnward-refl m.tasks) h)

create_valid-Keeps :
    (thread_id id : Text) (delay : ℕ) (summary : Text) (now then_now : ℕ) (m : ManagerState)
    → Keeps m (Manager.create_valid thread_id id delay summary now then_now m).0
unfolding Manager.create_valid Manager.refreshed Manager.create_unless
create_valid-Keeps thread_id id delay summary now then_now m =
    let tasks = Manager.refresh_due now m.tasks in
    elim (Option-cases (Manager.lookup id tasks)) [
      | inr (existing, e) ↦ rw e (refresh_due-IsOnward now m.tasks)
      | inl missing ↦ rw missing (
          IsOnward-trans m.tasks tasks
            ((id, Manager.new_task thread_id id delay summary then_now) ∷ tasks)
            (refresh_due-IsOnward now m.tasks)
            (insert-IsOnward id (Manager.new_task thread_id id delay summary then_now) tasks
              missing))
    ]

create_checked-Keeps :
    (thread_id id : Text) (delay : ℕ) (summary : Text) (now then_now : ℕ) (m : ManagerState)
    → Keeps m (Manager.create_checked thread_id id delay summary now then_now m).0
unfolding Manager.create_checked Manager.refuse
create_checked-Keeps thread_id id delay summary now then_now m =
    action-Keeps m (not (Manager.is_task_id id)) _ _ (IsOnward-refl m.tasks) (
      action-Keeps m (not (leb 1 delay && leb delay Manager.max_delay_seconds)) _ _
        (IsOnward-refl m.tasks)
        (action-Keeps m (not (Manager.is_summary summary)) _ _ (IsOnward-refl m.tasks)
          (create_valid-Keeps thread_id id delay summary now then_now m)))

cancel_found-Keeps :
    (id : Text) (now : ℕ) (m : ManagerState)
    → Keeps m (Manager.cancel_found id now m (Manager.lookup id m.tasks)).0
unfolding Manager.cancel_found
cancel_found-Keeps id now m = elim (Option-cases (Manager.lookup id m.tasks)) [
  | inl missing ↦ rw missing (IsOnward-refl m.tasks)
  | inr (t, e) ↦ rw e (
      replace-IsOnward id t (Manager.cancelled_task now t) m.tasks e
        (cancelled_task-IsForward now t))
]

apply-Keeps : (o : Operation) (m : ManagerState) → Keeps m (apply o m)
unfolding apply Manager.bind_owner Manager.disable Manager.create_delay Manager.read Manager.list
    Manager.cancel Manager.read_refreshed Manager.list_refreshed Manager.refreshed
apply-Keeps (Operation.bind thread_id) m =
    state-Keeps m m.poisoned _ _ (IsOnward-refl m.tasks) (IsOnward-refl m.tasks)
apply-Keeps Operation.disable m =
    state-Keeps m m.poisoned _ _ (IsOnward-refl m.tasks) (IsOnward-refl m.tasks)
apply-Keeps (Operation.create thread_id id delay summary now then_now) m =
    answer-Keeps m m.poisoned _ _ (IsOnward-refl m.tasks) (
      answer-Keeps m (not m.allow_tasks) _ _ (IsOnward-refl m.tasks) (
        as_owner-Keeps thread_id (Manager.create_checked thread_id id delay summary now then_now) m
          (create_checked-Keeps thread_id id delay summary now then_now m)))
apply-Keeps (Operation.read thread_id id now) m =
    as_owner-Keeps thread_id (λ m. Manager.read_refreshed id (Manager.refreshed now m)) m
      (refresh_due-IsOnward now m.tasks)
apply-Keeps (Operation.list thread_id now) m =
    as_owner-Keeps thread_id (λ m. Manager.list_refreshed (Manager.refreshed now m)) m
      (refresh_due-IsOnward now m.tasks)
apply-Keeps (Operation.cancel thread_id id now then_now) m =
    as_owner-Keeps thread_id
      (λ m.
        Manager.cancel_found id then_now (Manager.refreshed now m)
          (Manager.lookup id (Manager.refresh_due now m.tasks)))
      m
      (IsOnward-trans m.tasks (Manager.refresh_due now m.tasks)
        (Manager.cancel_found id then_now (Manager.refreshed now m)
          (Manager.lookup id (Manager.refresh_due now m.tasks))).0.tasks
        (refresh_due-IsOnward now m.tasks)
        (cancel_found-Keeps id then_now (Manager.refreshed now m)))

apply_all-IsOnward :
    (os : List Operation) (m : ManagerState) → IsOnward m.tasks (apply_all os m).tasks
unfolding apply_all
apply_all-IsOnward [] m = IsOnward-refl m.tasks
apply_all-IsOnward (o ∷ os) m =
    IsOnward-trans m.tasks (apply o m).tasks (apply_all os (apply o m)).tasks (apply-Keeps o m)
      (apply_all-IsOnward os (apply o m))

-- After any sequence of operations of its clients, short of closing it, the manager has each task that it
-- had, with the id, the owner, the summary and the times of creation and of the delay's end that it had,
-- and unchanged where it was not scheduled.
pub apply_all-IsForward :
    (os : List Operation) (m : ManagerState) (id : Text) (t : ScheduledTask)
    → Manager.lookup id m.tasks ≡ some t
    → (u : ScheduledTask) × (Manager.lookup id (apply_all os m).tasks ≡ some u) × IsForward t u
apply_all-IsForward os m id t h = apply_all-IsOnward os m id t h
