-- ===== src/Batch/Monad.antt =====
-- The state that a tool batch works on, and actions that may stop with a journal error and keep
-- what they have done. The cancel flag is shared with other threads: `cancel_at n` is what the
-- `n`th read of it finds.
use mini_agent_harness.Prelude.{ℕ, ◌+◌, Text, Bool, Option, List, [], ◌∷◌, ◌++◌}
use mini_agent_harness.Protocol.{Json, Event, Message, ToolExecutionContext}
use mini_agent_harness.Execution.{
  ExecutionJournalEntry, Sink, Appended, written, refused, append_if_present,
}
use mini_agent_harness.Session.State
use mini_agent_harness.Session.State.{SessionState}
use mini_agent_harness.Tools.Router.{ToolRouter}

-- `ToolBatchOptions`, with the collaborators that the functions take beside it.
pub record Options (V W : Type 0) : Type 0 where
  pub json : Json V
  pub tools : ToolRouter V W
  pub cancel_at : ℕ → Bool
  pub sink : Option (Sink V)
  pub max_output_bytes : ℕ
  pub context : Option ToolExecutionContext
  pub turn_id : Option Text
  pub step : ℕ

-- `executed` is the batch's result: name, arguments and content of each call.
pub record BatchState (V W : Type 0) : Type 0 where
  pub session : SessionState V
  pub events : List (Event V)
  pub journal : List (ExecutionJournalEntry V)
  pub world : W
  pub reads : ℕ
  pub executed : List (Text × V × Text)

pub data Result (A : Type 0) : Type 0 where
  ok : A → Result A
  err : Text → Result A

abbrev pub Exec : Type 0 → Type 0 → Type 0 → Type 0
Exec V W A = BatchState V W → BatchState V W × Result A

module _ {V W : Type 0} where
  unfoldable pub after :
      {A B : Type 0} → BatchState V W × Result A → (A → Exec V W B) → BatchState V W × Result B
  after (s, ok a) f = f a s
  after (s, err e) f = (s, err e)

  infixl 5 ◌>>=◌ ◌>>◌
  unfoldable pub ◌>>=◌ : {A B : Type 0} → Exec V W A → (A → Exec V W B) → Exec V W B
  unfolding after
  ◌>>=◌ m f s = after (m s) f

  unfoldable pub ◌>>◌ : {B : Type 0} → Exec V W (Unit {0}) → Exec V W B → Exec V W B
  unfolding ◌>>=◌
  ◌>>◌ m k = m >>= λ _. k

  unfoldable pub pure : {A : Type 0} → A → Exec V W A
  pure a s = (s, ok a)

  unfoldable pub modify : (BatchState V W → BatchState V W) → Exec V W (Unit {0})
  modify f s = (f s, ok tt)

  -- `observer.observe(..)`
  unfoldable pub observe : Event V → Exec V W (Unit {0})
  unfolding modify
  observe e = modify (λ s. record s { events = s.events ++ e ∷ [] })

  -- `session.push(..)`
  unfoldable pub push_message : Message V → Exec V W (Unit {0})
  unfolding modify
  push_message m = modify (λ s. record s { session = State.push m s.session })

  -- `control.is_cancel_requested()`
  unfoldable pub read_cancel : Options V W → Exec V W Bool
  read_cancel o s = (record s { reads = s.reads + 1 }, ok (o.cancel_at s.reads))

  unfoldable pub settle : Appended V → Exec V W (Unit {0})
  settle (written log) s = (record s { journal = log }, ok tt)
  settle (refused error) s = (s, err error)

  unfoldable pub append_journal : Options V W → ExecutionJournalEntry V → Exec V W (Unit {0})
  unfolding settle
  append_journal o entry s = settle (append_if_present o.sink entry s.journal) s
