-- ===== src/Host/Goal/Files.antt =====
-- crates/mini-agent-host/src/goal.rs: the files and the clock that a goal's store works on, and
-- actions that may stop with an `io::Error` and keep what they have done.
use mini_agent_harness.Prelude.{ℕ, ◌≡◌, Text, Bool, true, false, Option, none, some}
use mini_agent_harness.Host.Goal.State.{GoalState}

pub data IoErrorKind : Type 0 where
  not_found invalid_input invalid_data other : IoErrorKind

pub record IoError : Type 0 where
  pub kind : IoErrorKind
  pub message : Text

pub data Result (A : Type 0) : Type 0 where
  ok : A → Result A
  err : IoError → Result A

abbrev pub Io : Type 0 → Type 0 → Type 0
Io D A = D → D × Result A

-- `std::fs`, serde_json and the clock, on the session directory: `state_exists`, `read_state`,
-- `write_state` and `remove_state` on goal/state.json, read and written as JSON, `write_verdict` on
-- goal/verifier_verdict.md, `read_plan` and `write_plan` on goal/plan.md. `copy_plan` is the two
-- copies whose errors are dropped.
pub record Files (D : Type 0) : Type 0 where
  pub state_exists : D → Bool
  pub read_state : D → Result GoalState
  pub write_state : GoalState → D → D × Result (Unit {0})
  pub remove_state : D → D × Result (Unit {0})
  pub write_verdict : Text → D → D × Result (Unit {0})
  pub create_goal_dir : D → D × Result (Unit {0})
  pub plan_is_file : D → Bool
  pub copy_plan : D → D
  pub write_plan : Text → D → D × Result (Unit {0})
  pub now : D → D × ℕ
  pub read_plan : D → D × Result Text

-- What the store relies on: a written state is on the disk as it was written, and reading the clock
-- changes no file.
pub record Writable {D : Type 0} (F : Files D) : Type 0 where
  pub written : (s : GoalState) (d : D) → (F.write_state s d).1 ≡ ok tt
  pub exists : (s : GoalState) (d : D) → F.state_exists (F.write_state s d).0 ≡ true
  pub reads : (s : GoalState) (d : D) → F.read_state (F.write_state s d).0 ≡ ok s
  pub ticks_exist : (d : D) → F.state_exists (F.now d).0 ≡ F.state_exists d
  pub ticks_read : (d : D) → F.read_state (F.now d).0 ≡ F.read_state d

-- The verdict file can be written, and is another file than that of the state.
pub record KeepsVerdicts {D : Type 0} (F : Files D) : Type 0 where
  pub progressed : (t : Text) (d : D) → (F.write_verdict t d).1 ≡ ok tt
  pub still_exists : (t : Text) (d : D) → F.state_exists (F.write_verdict t d).0 ≡ F.state_exists d
  pub still_reads : (t : Text) (d : D) → F.read_state (F.write_verdict t d).0 ≡ F.read_state d

unfoldable pub loaded : Bool → Result GoalState → Result (Option GoalState)
loaded false r = ok none
loaded true (ok s) = ok (some s)
loaded true (err e) = err e

module _ {D : Type 0} where
  unfoldable pub after : {A B : Type 0} → D × Result A → (A → Io D B) → D × Result B
  after (d, ok a) f = f a d
  after (d, err e) f = (d, err e)

  infixl 5 ◌>>=◌ ◌>>◌
  unfoldable pub ◌>>=◌ : {A B : Type 0} → Io D A → (A → Io D B) → Io D B
  unfolding after
  ◌>>=◌ m f d = after (m d) f

  unfoldable pub ◌>>◌ : {B : Type 0} → Io D (Unit {0}) → Io D B → Io D B
  unfolding ◌>>=◌
  ◌>>◌ m k = m >>= λ _. k

  unfoldable pub pure : {A : Type 0} → A → Io D A
  pure a d = (d, ok a)

  unfoldable pub fail : {A : Type 0} → IoErrorKind → Text → Io D A
  fail kind message d = (d, err (record { kind = kind; message = message }))

  unfoldable pub current_time_ms : Files D → Io D ℕ
  current_time_ms F d = ((F.now d).0, ok (F.now d).1)

  unfoldable pub load_goal_state : Files D → Io D (Option GoalState)
  unfolding loaded
  load_goal_state F d = (d, loaded (F.state_exists d) (F.read_state d))
