-- ===== src/Capabilities/Schedule/Manager.antt =====
-- crates/mini-agent-capabilities/src/scheduled_task.rs: ScheduledTaskManager. The map of the tasks is a
-- list of ids and tasks; times are `u64` milliseconds, which the operations take in the order in which
-- they read the clock.
use mini_agent_harness.Prelude.{
  ℕ, ◌*◌, Text, Bool, true, false, Option, none, some, List, [], ◌∷◌, ◌++◌, codes, length, is_nil,
  leb, ltb, ◌==◌, ◌&&◌, ◌||◌, not, text_eq, trim, saturating_add, if◌then◌else◌,
}
use mini_agent_harness.Harness.Config.{Result, ok, err}

abbrev pub max_task_id_bytes : ℕ
max_task_id_bytes = 128

abbrev pub max_summary_bytes : ℕ
max_summary_bytes = 512

abbrev pub max_delay_seconds : ℕ
max_delay_seconds = 24 * 60 * 60

pub record ScheduledTask : Type 0 where
  pub task_id : Text
  pub owner_thread_id : Text
  pub state : Text
  pub trigger_type : Text
  pub summary : Text
  pub created_at : ℕ
  pub due_at : ℕ
  pub ready_at : Option ℕ
  pub cancelled_at : Option ℕ

-- `poisoned`: a thread panicked while it held the mutex, so `lock` fails.
pub record ManagerState : Type 0 where
  pub owner_thread_id : Option Text
  pub allow_tasks : Bool
  pub tasks : List (Text × ScheduledTask)
  pub poisoned : Bool

abbrev pub Answer : Type 0 → Type 0
Answer A = ManagerState × Result Text A

unfoldable pub new : ManagerState
new = record { owner_thread_id = none; allow_tasks = true; tasks = []; poisoned = false }

unfoldable pub bind_owner : Text → ManagerState → ManagerState
bind_owner thread_id m = if m.poisoned then m else record m { owner_thread_id = some thread_id }

unfoldable pub disable : ManagerState → ManagerState
disable m = if m.poisoned then m else record m { allow_tasks = false }

abbrev pub scheduled : Text
scheduled = codes "scheduled"

unfoldable pub refresh_task : ℕ → ScheduledTask → ScheduledTask
refresh_task now task =
    if text_eq task.state scheduled && leb task.due_at now
    then record task { state = codes "ready"; ready_at = some now }
    else task

unfoldable pub refresh_due : ℕ → List (Text × ScheduledTask) → List (Text × ScheduledTask)
unfolding refresh_task
refresh_due now [] = []
refresh_due now ((id, task) ∷ tasks) = (id, refresh_task now task) ∷ refresh_due now tasks

-- `HashMap::get`
unfoldable pub lookup : Text → List (Text × ScheduledTask) → Option ScheduledTask
lookup id [] = none
lookup id ((k, task) ∷ tasks) = if text_eq k id then some task else lookup id tasks

-- what `get_mut` writes
unfoldable pub replace :
    Text → ScheduledTask → List (Text × ScheduledTask) → List (Text × ScheduledTask)
replace id t [] = []
replace id t ((k, task) ∷ tasks) =
    if text_eq k id then (k, t) ∷ tasks else (k, task) ∷ replace id t tasks

abbrev pub unavailable_text : Text
unavailable_text = codes "scheduled task state is unavailable"

unfoldable pub is_other : Option Text → Text → Bool
is_other none thread_id = false
is_other (some owner) thread_id = not (text_eq owner thread_id)

-- `ensure_owner` and `lock_state`, and what an operation does under the lock
unfoldable pub as_owner : {A : Type 0} → Text → (ManagerState → Answer A) → ManagerState → Answer A
unfolding is_other
as_owner thread_id f m =
    if m.poisoned
    then (m, err unavailable_text)
    else (if is_other m.owner_thread_id thread_id
        then (m, err (codes "scheduled task belongs to another Thread runtime"))
        else f m)

not_found : Text → Text
not_found id = codes "scheduled task `" ++ (id ++ codes "` was not found")

unfoldable pub or_not_found : Text → Option ScheduledTask → Result Text ScheduledTask
unfolding not_found
or_not_found id none = err (not_found id)
or_not_found id (some task) = ok task

unfoldable pub read_refreshed : Text → ManagerState → Answer ScheduledTask
unfolding lookup or_not_found
read_refreshed id m = (m, or_not_found id (lookup id m.tasks))

unfoldable pub refreshed : ℕ → ManagerState → ManagerState
unfolding refresh_due
refreshed now m = record m { tasks = refresh_due now m.tasks }

unfoldable pub read : Text → Text → ℕ → ManagerState → Answer ScheduledTask
unfolding as_owner refreshed read_refreshed
read thread_id id now = as_owner thread_id λ m. read_refreshed id (refreshed now m)

-- the order of `String`
text_before : Text → Text → Bool
text_before [] b = true
text_before (x ∷ a) [] = false
text_before (x ∷ a) (y ∷ b) = if x == y then text_before a b else ltb x y

insert_sorted : ScheduledTask → List ScheduledTask → List ScheduledTask
unfolding text_before
insert_sorted t [] = t ∷ []
insert_sorted t (u ∷ us) =
    if text_before t.task_id u.task_id then t ∷ u ∷ us else u ∷ insert_sorted t us

unfoldable pub sorted_tasks : List (Text × ScheduledTask) → List ScheduledTask
unfolding insert_sorted
sorted_tasks [] = []
sorted_tasks ((id, t) ∷ ts) = insert_sorted t (sorted_tasks ts)

unfoldable pub list_refreshed : ManagerState → Answer (List ScheduledTask)
unfolding sorted_tasks
list_refreshed m = (m, ok (sorted_tasks m.tasks))

unfoldable pub list : Text → ℕ → ManagerState → Answer (List ScheduledTask)
unfolding as_owner refreshed list_refreshed
list thread_id now = as_owner thread_id λ m. list_refreshed (refreshed now m)

unfoldable pub cancelled_task : ℕ → ScheduledTask → ScheduledTask
cancelled_task now task =
    if text_eq task.state scheduled
    then record task { state = codes "cancelled"; cancelled_at = some now }
    else task

unfoldable pub cancel_found : Text → ℕ → ManagerState → Option ScheduledTask → Answer ScheduledTask
unfolding cancelled_task replace not_found
cancel_found id now m none = (m, err (not_found id))
cancel_found id now m (some task) =
    let t = cancelled_task now task in (record m { tasks = replace id t m.tasks }, ok t)

unfoldable pub cancel : Text → Text → ℕ → ℕ → ManagerState → Answer ScheduledTask
unfolding as_owner refreshed lookup cancel_found
cancel thread_id id now then_now =
    as_owner thread_id
      λ m. let m' = refreshed now m in cancel_found id then_now m' (lookup id m'.tasks)

is_id_byte : ℕ → Bool
is_id_byte b =
    (leb 48 b && leb b 57)
    || ((leb 65 b && leb b 90) || ((leb 97 b && leb b 122) || (b == 45 || (b == 95 || b == 46))))

all_id_bytes : Text → Bool
unfolding is_id_byte
all_id_bytes [] = true
all_id_bytes (b ∷ bs) = is_id_byte b && all_id_bytes bs

unfoldable pub is_task_id : Text → Bool
unfolding all_id_bytes
is_task_id id = not (is_nil id || (ltb max_task_id_bytes (length id) || not (all_id_bytes id)))

unfoldable pub is_summary : Text → Bool
is_summary summary = not (is_nil (trim summary) || ltb max_summary_bytes (length summary))

unfoldable pub new_task : Text → Text → ℕ → Text → ℕ → ScheduledTask
new_task thread_id id delay_seconds summary now = record {
  task_id = id;
  owner_thread_id = thread_id;
  state = scheduled;
  trigger_type = codes "delay";
  summary = summary;
  created_at = now;
  due_at = saturating_add now (delay_seconds * 1000);
  ready_at = none;
  cancelled_at = none;
}

unfoldable pub create_unless :
    Text → ScheduledTask → ManagerState → Option ScheduledTask → Answer ScheduledTask
create_unless id task m (some existing) = (m, ok existing)
create_unless id task m none = (record m { tasks = (id, task) ∷ m.tasks }, ok task)

-- the task of a valid creation, at the time that the clock then has
unfoldable pub create_valid : Text → Text → ℕ → Text → ℕ → ℕ → ManagerState → Answer ScheduledTask
unfolding refreshed lookup new_task create_unless
create_valid thread_id id delay_seconds summary now then_now m =
    let m' = refreshed now m in
    create_unless id (new_task thread_id id delay_seconds summary then_now) m' (lookup id m'.tasks)

unfoldable pub refuse : {A : Type 0} → Text → ManagerState → Answer A
refuse text m = (m, err text)

unfoldable pub create_checked : Text → Text → ℕ → Text → ℕ → ℕ → ManagerState → Answer ScheduledTask
unfolding is_task_id is_summary create_valid refuse
create_checked thread_id id delay_seconds summary now then_now =
    if not (is_task_id id)
    then refuse (
        codes
          "task_id must contain only letters, numbers, '.', '_' or '-' and be at most 128 bytes")
    else (if not (leb 1 delay_seconds && leb delay_seconds max_delay_seconds)
        then refuse (codes "delay_seconds must be between 1 and 86400")
        else (if not (is_summary summary)
            then refuse (codes "summary must contain 1..=512 bytes")
            else create_valid thread_id id delay_seconds summary now then_now))

unfoldable pub create_delay : Text → Text → ℕ → Text → ℕ → ℕ → ManagerState → Answer ScheduledTask
unfolding as_owner create_checked refuse
create_delay thread_id id delay_seconds summary now then_now m =
    if m.poisoned
    then (m, err unavailable_text)
    else (if not m.allow_tasks
        then (m, err (codes "scheduled tasks are disabled for this runtime"))
        else as_owner thread_id (create_checked thread_id id delay_seconds summary now then_now) m)

unfoldable pub close_all : ManagerState → Answer (Unit {0})
close_all m = if m.poisoned then (m, err unavailable_text) else (record m { tasks = [] }, ok tt)
