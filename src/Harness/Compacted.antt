-- ===== src/Harness/Compacted.antt =====
-- crates/mini-agent-core/src/harness.rs: what a compaction may do to the harness.
use mini_agent_harness.Prelude.{ℕ, Text, Bool, List}
use mini_agent_harness.Protocol.{Json, ToolSpec}
use mini_agent_harness.Session.Settled.{IsSettled}
use mini_agent_harness.Harness.Config.{Result, HarnessError, Harness, ForkCompactionMethod}
use mini_agent_harness.Harness.Compact.{Run, compact_context_to}
use mini_agent_harness.Compaction.Carried.{IsSettled-Carried}
use mini_agent_harness.Harness.Shrunk.{ShrunkWith, CompactedWith, compact_context_to-Carries}

module _ {V W E : Type 0} (J : Json V) (specs : List (ToolSpec V)) where
  -- The history is shorter and within the limit, its groups are as complete as they were, and all
  -- but the session is the same.
  abbrev pub Shrunk : Harness V W E → Harness V W E → Type 0
  Shrunk = ShrunkWith J specs IsSettled

  abbrev pub Compacted :
      Harness V W E → Run V W E × Result (HarnessError E) ForkCompactionMethod → Type 0
  Compacted = CompactedWith J specs IsSettled

  -- A compaction that succeeds shortens the history, brings it within the limit, keeps its tool groups
  -- complete and changes nothing else of the harness; one that fails, or has nothing to compact,
  -- leaves the harness as it was.
  pub compact_context_to-Compacted :
      (prompt : Text) (compact_at : ℕ) (must : Bool) (r : Run V W E)
      → Compacted r.harness (compact_context_to J prompt specs compact_at must r)
  compact_context_to-Compacted =
      compact_context_to-Carries J specs IsSettled (IsSettled-Carried J specs)
