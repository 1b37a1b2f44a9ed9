-- ===== src/Compaction/Parts.antt =====
-- crates/mini-agent-core/src/context_controller.rs: the parts of a history that compaction keeps.
use mini_agent_harness.Prelude.{
  ℕ, zero, suc, ◌+◌, ◌-◌, ◌/◌, ◌%◌, min, Text, Bool, false, Option, none, some, List, [], ◌∷◌, ◌++◌,
  codes, not, length, take, drop, get_or, some_of, is_nil, starts_with, strip_prefix, text_mem, ltb,
  ◌&&◌, ◌==◌, if◌then◌else◌,
}
use mini_agent_harness.Protocol.{Json, Message, context, assistant}

abbrev pub loop_warning_prefix : Text
loop_warning_prefix = codes "[Loop warning:"

abbrev pub compact_tail_groups : ℕ
compact_tail_groups = 2

abbrev pub compact_tail_max_bytes : ℕ
compact_tail_max_bytes = 131072

-- `str::find` with a set of characters: the position of the first
unfoldable pub find_any : List ℕ → Text → Option ℕ
find_any stops [] = none
find_any stops (c ∷ t) =
    if some_of (λ s. s == c) stops
    then some 0
    else elim (find_any stops t) [ none ↦ none | some i ↦ some (suc i) ]

slot_before : Text → Option ℕ → Option Text
slot_before rest none = none
slot_before rest (some end) = if ltb 0 end then some (take end rest) else none

unfoldable pub context_slot : Text → Option Text
unfolding slot_before
context_slot text = elim (strip_prefix (b'<' ∷ []) text) [
  | none ↦ none
  | some rest ↦ slot_before rest (find_any (b'>' ∷ b'/' ∷ b' ' ∷ 9 ∷ 10 ∷ []) rest)
]

-- the decimal digits of a number, with fuel for each
decimal_digits : ℕ → ℕ → Text
decimal_digits zero n = []
decimal_digits (suc fuel) n =
    let rest = decimal_digits fuel (n / 10) in
    if ltb n 10 then (48 + n) ∷ [] else rest ++ (48 + n % 10) ∷ []

unfoldable pub decimal : ℕ → Text
unfolding decimal_digits
decimal n = decimal_digits (suc n) n

slot_or_untagged : Option Text → ℕ → Text
slot_or_untagged none index = codes "<untagged:" ++ (decimal index ++ b'>' ∷ [])
slot_or_untagged (some slot) index = slot

module _ {V : Type 0} where
  -- a context message other than a loop warning
  unfoldable pub is_kept_context : Message V → Bool
  is_kept_context (context t) = not (starts_with loop_warning_prefix t)
  is_kept_context _ = false

  unfoldable pub message_slot : Message V → ℕ → Text
  unfolding slot_or_untagged
  message_slot (context t) index = slot_or_untagged (context_slot t) index
  message_slot _ index = []

  -- The reversed loop from the end: the slots seen, and the contexts that were first in theirs.
  unfoldable pub latest_contexts : ℕ → List (Message V) → List Text × List (Message V)
  latest_contexts index [] = ([], [])
  latest_contexts index (m ∷ ms) =
      let (seen, contexts) = latest_contexts (index + 1) ms in
      let slot = message_slot m index in
      if is_kept_context m && not (text_mem slot seen)
      then (slot ∷ seen, m ∷ contexts)
      else (seen, contexts)

  unfoldable pub without_contexts : List (Message V) → List (Message V)
  without_contexts [] = []
  without_contexts (m ∷ ms) =
      if is_kept_context m then without_contexts ms else m ∷ without_contexts ms

  unfoldable pub take_latest_contexts : List (Message V) → List (Message V) × List (Message V)
  take_latest_contexts ms = (without_contexts ms, (latest_contexts 0 ms).1)

  unfoldable pub starts_from : ℕ → List (Message V) → List ℕ
  starts_from index [] = []
  starts_from index (assistant r t cs ∷ ms) = index ∷ starts_from (index + 1) ms
  starts_from index (m ∷ ms) = starts_from (index + 1) ms

  unfoldable pub assistant_starts : List (Message V) → List ℕ
  assistant_starts = starts_from 0

  -- The loop that moves the tail's start while it holds more than one group and is too long. The
  -- fuel is the number of groups in the tail at the start.
  unfoldable pub shrink_tail : Json V → ℕ → List (Message V) → ℕ → ℕ
  shrink_tail J zero messages tail_start = tail_start
  shrink_tail J (suc fuel) messages tail_start =
      let tail = drop tail_start messages in
      let inner = assistant_starts tail in
      let rest = shrink_tail J fuel messages (tail_start + get_or inner 1 0) in
      if ltb 1 (length inner) && ltb compact_tail_max_bytes (J.messages_len tail)
      then rest
      else tail_start

  unfoldable pub tail_start_of : Json V → List (Message V) → List ℕ → ℕ
  unfolding shrink_tail
  tail_start_of J messages starts =
      let group_count = min (length starts) compact_tail_groups in
      shrink_tail J group_count messages (get_or starts (length starts - group_count) 0)

  unfoldable pub split_prefix_tail : Json V → List (Message V) → List (Message V) × List (Message V)
  split_prefix_tail J messages =
      let starts = assistant_starts messages in
      let tail_start = tail_start_of J messages starts in
      if is_nil starts then (messages, []) else (take tail_start messages, drop tail_start messages)

  unfoldable pub split_compaction_parts :
      Json V → List (Message V) → List (Message V) × List (Message V) × List (Message V)
  split_compaction_parts J messages =
      let (without_context, contexts) = take_latest_contexts messages in
      let (prefix, tail) = split_prefix_tail J without_context in (prefix, contexts, tail)
