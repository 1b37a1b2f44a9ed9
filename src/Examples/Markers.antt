-- ===== src/Examples/Markers.antt =====
-- A manager with a marker that is created, comes due and is cancelled too late.
use mini_agent_harness.Prelude.{◌≡◌, refl, ◌∷◌, [], codes, some}
use mini_agent_harness.Capabilities.Schedule.Manager
use mini_agent_harness.Capabilities.Schedule.Manager.{ManagerState, ScheduledTask, new_task}
use mini_agent_harness.Capabilities.Schedule.Forward.{IsForward}
use mini_agent_harness.Capabilities.Schedule.Markers.{Operation, apply_all, apply_all-IsForward}
use mini_agent_harness.Prelude.{List}

abbrev manager : ManagerState
manager = record Manager.new {
  tasks = (codes "build", new_task (codes "t") (codes "build") 5 (codes "look again") 1000) ∷ [];
}

abbrev operations : List Operation
operations =
    Operation.bind (codes "t")
    ∷ Operation.create (codes "t") (codes "test") 10 (codes "look") 2000 2001
    ∷ Operation.read (codes "t") (codes "build") 9000
    ∷ Operation.cancel (codes "t") (codes "build") 9500 9501
    ∷ []

abbrev marker : ScheduledTask
marker = new_task (codes "t") (codes "build") 5 (codes "look again") 1000

apply_all-IsForward_example :
    (u : ScheduledTask) × (Manager.lookup (codes "build") (apply_all operations manager).tasks
      ≡ some u)
    × IsForward marker u
unfolding Manager.lookup
apply_all-IsForward_example = apply_all-IsForward operations manager (codes "build") marker refl
