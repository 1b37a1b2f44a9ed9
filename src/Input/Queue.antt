-- ===== src/Input/Queue.antt =====
-- crates/mini-agent-core/src/input.rs: `PendingInputQueue`. A mutating method returns the new
-- queue. `String::capacity` and `Vec::capacity` are the allocator's, and come as a parameter.
use mini_agent_harness.Prelude.{
  ℕ, ◌*◌, Text, Bool, false, Option, none, some, List, [], ◌∷◌, ◌++◌, map, not, length, keep,
  some_of, ◌==◌, saturating_add, saturating_mul, saturating_sum, ltb, leb, if◌then◌else◌,
}
use mini_agent_harness.Protocol.{
  TurnInput, TurnInputMode, ModelSelection, ReasoningSelection, TurnWorkflow, is_steer,
  is_follow_up, is_start,
}

abbrev pub default_max_pending_inputs : ℕ
default_max_pending_inputs = 16

abbrev pub max_pending_input_bytes : ℕ
max_pending_input_bytes = 512 * 1024

abbrev pub max_pending_input_item_bytes : ℕ
max_pending_input_item_bytes = 64 * 1024

-- `std::mem::size_of::<String>()` on a 64-bit target
abbrev pub string_size : ℕ
string_size = 24

pub data InputQueueError : Type 0 where
  full : ℕ → InputQueueError
  byte_limit : ℕ → ℕ → InputQueueError
  unsupported_mode : TurnInputMode → InputQueueError

pub record Capacities : Type 0 where
  pub text_capacity : Text → ℕ
  pub texts_capacity : List Text → ℕ

-- `poisoned`: a thread panicked while it held the mutex, so `lock` fails.
pub record PendingInputQueue : Type 0 where
  pub inputs : List TurnInput
  pub capacity : ℕ
  pub poisoned : Bool

unfoldable pub new : ℕ → PendingInputQueue
new capacity = record { inputs = []; capacity = capacity; poisoned = false }

module _ (C : Capacities) where
  selection_bytes : Option ModelSelection → ℕ
  selection_bytes none = 0
  selection_bytes (some s) =
      saturating_add (C.text_capacity s.provider_id) (C.text_capacity s.model_id)

  reasoning_bytes : Option ReasoningSelection → ℕ
  reasoning_bytes none = 0
  reasoning_bytes (some ReasoningSelection.api_default) = 0
  reasoning_bytes (some (ReasoningSelection.level value)) = C.text_capacity value

  workflow_bytes : Option TurnWorkflow → ℕ
  workflow_bytes none = 0
  workflow_bytes (some w) = C.text_capacity w.id

  option_bytes : Option Text → ℕ
  option_bytes none = 0
  option_bytes (some t) = C.text_capacity t

  skill_bytes : List Text → ℕ
  skill_bytes skills =
      saturating_add (saturating_mul (C.texts_capacity skills) string_size)
        (saturating_sum (map C.text_capacity skills) 0)

  unfoldable pub retained_bytes : TurnInput → ℕ
  unfolding selection_bytes reasoning_bytes workflow_bytes option_bytes skill_bytes
  retained_bytes i =
      saturating_sum
        (skill_bytes i.selected_skills
          ∷ workflow_bytes i.workflow
          ∷ selection_bytes i.model_selection
          ∷ reasoning_bytes i.reasoning_selection
          ∷ option_bytes i.reasoning_effort
          ∷ option_bytes i.steer_request_id
          ∷ [])
        (C.text_capacity i.text)

  unfoldable pub queued_bytes : List TurnInput → ℕ
  queued_bytes inputs = saturating_sum (map (retained_bytes) inputs) 0

pub data Submitted : Type 0 where
  queued : PendingInputQueue → Submitted
  refused : InputQueueError → Submitted

module _ (C : Capacities) where
  -- A refused input leaves the queue as it was.
  unfoldable pub submit : TurnInput → PendingInputQueue → Submitted
  submit i q =
      let input_bytes = retained_bytes C i in
      let actual = saturating_add (queued_bytes C q.inputs) input_bytes in
      if is_start i.mode
      then refused (unsupported_mode i.mode)
      else if ltb max_pending_input_item_bytes input_bytes
      then refused (byte_limit max_pending_input_item_bytes input_bytes)
      else if q.poisoned
      then refused (full q.capacity)
      else if leb q.capacity (length q.inputs)
      then refused (full q.capacity)
      else if ltb max_pending_input_bytes actual
      then refused (byte_limit max_pending_input_bytes actual)
      else queued (record q { inputs = q.inputs ++ i ∷ [] })

-- `position` and `remove`: the first match, and the list without it
unfoldable pub remove_first :
    (TurnInput → Bool) → List TurnInput → Option (TurnInput × List TurnInput)
remove_first matches [] = none
remove_first matches (i ∷ is) =
    if matches i
    then some (i, is)
    else elim (remove_first matches is) [ none ↦ none | some (j, js) ↦ some (j, i ∷ js) ]

unfoldable pub take_matching :
    (TurnInput → Bool) → PendingInputQueue → PendingInputQueue × Option TurnInput
take_matching matches q = if q.poisoned then (q, none) else elim (remove_first matches q.inputs) [
  | none ↦ (q, none)
  | some (i, rest) ↦ (record q { inputs = rest }, some i)
]

unfoldable pub take_steer : PendingInputQueue → PendingInputQueue × Option TurnInput
take_steer = take_matching (λ i. is_steer i.mode)

unfoldable pub take_follow_up : PendingInputQueue → PendingInputQueue × Option TurnInput
take_follow_up = take_matching (λ i. is_follow_up i.mode)

unfoldable pub cancel_steers : PendingInputQueue → PendingInputQueue × List TurnInput
cancel_steers q = if q.poisoned then (q, []) else (
  record q { inputs = keep (λ i. not (is_steer i.mode)) q.inputs },
  keep (λ i. is_steer i.mode) q.inputs,
)

unfoldable pub has_steer : PendingInputQueue → Bool
has_steer q = if q.poisoned then false else some_of (λ i. is_steer i.mode) q.inputs

unfoldable pub len : PendingInputQueue → ℕ
len q = if q.poisoned then 0 else length q.inputs

unfoldable pub is_empty : PendingInputQueue → Bool
is_empty q = len q == 0
