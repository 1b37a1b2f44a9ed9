-- ===== src/Examples/Goals.antt =====
-- A goal on a disk that keeps one state and a clock.
use mini_agent_harness.Prelude.{
  ℕ, suc, ◌≡◌, ◌⊎◌, refl, arith, ◌∷◌, false, Option, none, some, List, [], codes, is_some,
}
use mini_agent_harness.Host.Goal.State.{
  GoalState, GoalLimits, GoalStatus, GoalVerificationStatus, VerdictOutcome, VerifierVerdict,
  is_addressed, is_running, is_active_turn,
}
use mini_agent_harness.Host.Goal.Files.{
  Files, Writable, KeepsVerdicts, Result, ok, err, IoErrorKind,
}
use mini_agent_harness.Host.Goal.Update.{record_goal_usage}
use mini_agent_harness.Host.Goal.Store.{set_goal}
use mini_agent_harness.Host.Goal.Durable.{Holds}
use mini_agent_harness.Host.Goal.Stops.{advance_all, HasStopped, set_goal-Stops}
use mini_agent_harness.Host.Goal.Runs.{Runs}
use mini_agent_harness.Host.Goal.Reports.{Report, Reported, tell, tell-Reported}
use mini_agent_harness.Host.Goal.Budget.{IsCounted, record_goal_usage-Counted}

record Disk : Type 0 where
  goal : Option GoalState
  clock : ℕ

abbrev read_goal : Option GoalState → Result GoalState
read_goal none = err (record { kind = IoErrorKind.not_found; message = codes "no file" })
read_goal (some s) = ok s

abbrev files : Files Disk
files = record {
  state_exists = λ d. is_some d.goal;
  read_state = λ d. read_goal d.goal;
  write_state = λ s d. (record d { goal = some s }, ok tt);
  remove_state = λ d. (record d { goal = none }, ok tt);
  write_verdict = λ t d. (d, ok tt);
  create_goal_dir = λ d. (d, ok tt);
  plan_is_file = λ d. false;
  copy_plan = λ d. d;
  write_plan = λ t d. (d, ok tt);
  read_plan = λ d. (d, ok []);
  now = λ d. (record d { clock = suc d.clock }, d.clock);
}

writable : Writable files
writable = record {
  written = λ s d. refl;
  exists = λ s d. refl;
  reads = λ s d. refl;
  ticks_exist = λ d. refl;
  ticks_read = λ d. refl;
}

abbrev limits : GoalLimits
limits = record { max_loops = 2; milestone_step_budget = 10; milestone_timeout_secs = 60 }

abbrev empty : Disk
empty = record { goal = none; clock = 5 }

abbrev verdict : VerifierVerdict
verdict = record { outcome = VerdictOutcome.approved; score = none; summary = codes "s" }

abbrev verdicts : List (Option VerifierVerdict)
verdicts = some verdict ∷ none ∷ some verdict ∷ none ∷ []

abbrev goal_state : GoalState
goal_state = record {
  schema_version = 3;
  goal_id = codes "g_5";
  objective = codes "tidy";
  status = GoalStatus.running;
  current_milestone = 1;
  total_milestones = 3;
  loop_count = 0;
  max_loops = 2;
  milestone_step_budget = 10;
  milestone_timeout_secs = 60;
  verifier_model = none;
  verifier_model_selection = none;
  last_verifier_score = none;
  token_budget = some 100;
  tokens_used = 0;
  created_at_ms = 6;
  updated_at_ms = 6;
  active_turn_id = none;
  active_turn_settled = false;
  last_error = none;
  verification_status = GoalVerificationStatus.idle;
}

set_goal_answers : (set_goal files limits (codes "tidy") (some 100) empty).1 ≡ ok goal_state
unfolding set_goal
set_goal_answers = refl

set_goal-Stops_example :
    HasStopped files
      (advance_all files verdicts (set_goal files limits (codes "tidy") (some 100) empty).0)
set_goal-Stops_example =
    set_goal-Stops files writable limits (codes "tidy") (some 100) empty goal_state verdicts
      set_goal_answers (omega arith)

abbrev running_goal : GoalState
running_goal = record goal_state { active_turn_id = some (codes "t") }

abbrev at_work : Disk
at_work = record { goal = some running_goal; clock = 9 }

keeps_verdicts : KeepsVerdicts files
keeps_verdicts = record {
  progressed = λ t d. refl;
  still_exists = λ t d. refl;
  still_reads = λ t d. refl;
}

abbrev heavy_use : Report
heavy_use = Report.used 120

tell-Reported_example :
    (Runs (codes "g_5") (codes "t") running_goal
      × Reported files heavy_use running_goal
          (tell files (codes "g_5") (codes "t") heavy_use at_work))
    ⊎ ((¬ (Runs (codes "g_5") (codes "t") running_goal))
        × (tell files (codes "g_5") (codes "t") heavy_use at_work ≡ (at_work, ok none)))
tell-Reported_example =
    tell-Reported files writable keeps_verdicts (codes "g_5") (codes "t") {d = at_work}
      {s = running_goal} (refl, refl) heavy_use

record_goal_usage-Counted_example :
    (t : GoalState) × (d' : Disk) × (record_goal_usage files (codes "g_5") (codes "t") 120 at_work
      ≡ (d', ok (some t)))
    × Holds files d' t
    × IsCounted 120 running_goal t
unfolding is_addressed is_running is_active_turn
record_goal_usage-Counted_example =
    record_goal_usage-Counted files writable {d = at_work} {s = running_goal} (refl, refl)
      (codes "g_5") (codes "t") 120 refl
