-- ===== src/Compaction/Carried.antt =====
-- crates/mini-agent-core/src/context_controller.rs: properties of histories that compaction keeps.
use mini_agent_harness.Prelude.{ℕ, Text, Option, List, []}
use mini_agent_harness.Protocol.{Json, Message, ToolCall, ToolSpec}
use mini_agent_harness.Session.Settled.{IsSettled}
use mini_agent_harness.Compaction.Parts.{split_compaction_parts}
use mini_agent_harness.Compaction.Shrink.{assemble_compacted, mechanical_compact}
use mini_agent_harness.Compaction.Replay.{
  split_compaction_parts-IsSettled, mechanical_compact-IsSettled, assemble_compacted-IsSettled,
}
use mini_agent_harness.Compaction.Opened.{
  IsOpened, split_compaction_parts-IsOpened, assemble_compacted-IsOpened,
  mechanical_compact-IsOpened,
}

-- A property of histories that compaction keeps: the tail has it, and what is assembled with a tail
-- that has it.
pub record Carried {V : Type 0} (J : Json V) (specs : List (ToolSpec V))
    (K : List (Message V) → Type 0) : Type 0 where
  pub split :
      (ms : List (Message V))
      → K ms
      → let (prefix, contexts, tail) = split_compaction_parts J ms in
        IsSettled prefix × (IsSettled contexts × K tail)
  pub assemble :
      (summary : Option Text) (contexts tail : List (Message V)) (max_input : ℕ)
      → IsSettled contexts
      → K tail
      → K (assemble_compacted summary contexts tail max_input)
  pub shorten :
      (system : Text) (limit : ℕ) (prefix contexts tail : List (Message V)) (max_input : ℕ)
      → IsSettled prefix
      → IsSettled contexts
      → K tail
      → K (mechanical_compact J prefix contexts tail limit system specs max_input)

pub IsSettled-Carried :
    {V : Type 0} (J : Json V) (specs : List (ToolSpec V)) → Carried J specs IsSettled
IsSettled-Carried J specs = record {
  split = split_compaction_parts-IsSettled J;
  assemble = assemble_compacted-IsSettled;
  shorten = λ system limit. mechanical_compact-IsSettled J [] system specs limit;
}

pub IsOpened-Carried :
    {V : Type 0} (J : Json V) (specs : List (ToolSpec V)) (r x : Text) (calls : List (ToolCall V))
    → Carried J specs (IsOpened r x calls)
IsOpened-Carried J specs r x calls = record {
  split = split_compaction_parts-IsOpened r x calls J;
  assemble = assemble_compacted-IsOpened r x calls;
  shorten = λ system limit. mechanical_compact-IsOpened r x calls J system specs limit;
}
