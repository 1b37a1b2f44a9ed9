-- ===== src/Session/Groups.antt =====
-- crates/mini-agent-core/src/session.rs, `repair_tool_groups`: the loop that drops the tool groups
-- which an interrupted batch left incomplete.
use mathlib.Core.List.{foldl}
use mini_agent_harness.Prelude.{
  ℕ, Text, Option, none, some, List, [], ◌∷◌, ◌++◌, take, length, is_nil, text_mem, text_insert,
  text_remove, if◌then◌else◌,
}
use mini_agent_harness.Protocol.{Message, ToolCall, assistant, tool}

-- The variables of the loop; `pending` is the `HashSet` of call ids without a result.
pub record RepairState (V : Type 0) : Type 0 where
  pub repaired : List (Message V)
  pub pending : List Text
  pub group_start : Option ℕ

-- `pending_calls.extend(..)`
unfoldable pub extend_ids : List Text → List Text → List Text
extend_ids pending [] = pending
extend_ids pending (i ∷ is) = extend_ids (text_insert i pending) is

module _ {V : Type 0} where
  unfoldable pub call_ids : List (ToolCall V) → List Text
  call_ids [] = []
  call_ids (c ∷ cs) = c.id ∷ call_ids cs

  -- `repaired.truncate(group_start.take()..); pending_calls.clear()`, where a group is open
  abandon : RepairState V → RepairState V
  abandon s = elim s.group_start [
    | none ↦ s
    | some start ↦ record { repaired = take start s.repaired; pending = []; group_start = none }
  ]

  push_message : Message V → RepairState V → RepairState V
  push_message m s = record s { repaired = s.repaired ++ m ∷ [] }

  -- a result for the open group: the last one closes it, a foreign one drops it
  settle_call : Text → Message V → RepairState V → RepairState V
  unfolding abandon
  settle_call id m s =
      if text_mem id s.pending
      then (let rest = text_remove id s.pending in
          record {
            repaired = s.repaired ++ m ∷ [];
            pending = rest;
            group_start = if is_nil rest then none else s.group_start;
          })
      else abandon s

  -- the body of the loop
  unfoldable pub repair_message : RepairState V → Message V → RepairState V
  unfolding abandon push_message settle_call call_ids extend_ids
  repair_message s (assistant r t (c ∷ cs)) =
      let s' = abandon s in
      record {
        repaired = s'.repaired ++ assistant r t (c ∷ cs) ∷ [];
        pending = extend_ids s'.pending (call_ids (c ∷ cs));
        group_start = some (length s'.repaired);
      }
  repair_message s (tool id n x e o) = elim s.group_start [
    | none ↦ push_message (tool id n x e o) s
    | some _ ↦ settle_call id (tool id n x e o) s
  ]
  repair_message s m = push_message m (abandon s)

  unfoldable pub close_repair : RepairState V → List (Message V)
  close_repair s = elim s.group_start [ none ↦ s.repaired | some start ↦ take start s.repaired ]

  unfoldable pub repair_tool_groups : List (Message V) → List (Message V)
  unfolding repair_message close_repair
  repair_tool_groups messages =
      close_repair
        (foldl repair_message (record { repaired = []; pending = []; group_start = none }) messages)
