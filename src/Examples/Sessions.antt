-- ===== src/Examples/Sessions.antt =====
-- The repair of an open group, and of a history without one.
use mini_agent_harness.Prelude.{◌≡◌, keep}
use mini_agent_harness.Session.Groups.{repair_tool_groups}
use mini_agent_harness.Session.Settled.{IsSettled, repair-IsSettled}
use mini_agent_harness.Session.Kept.{is_conversation, conversation-repair, repair-eq_of_settled}
use mini_agent_harness.Examples.Data.{settled_history, settled_history-IsSettled, open_history}

repair-IsSettled_example : IsSettled (repair_tool_groups open_history)
repair-IsSettled_example = repair-IsSettled open_history

conversation-repair_example :
    keep is_conversation (repair_tool_groups open_history) ≡ keep is_conversation open_history
conversation-repair_example = conversation-repair open_history

repair-eq_of_settled_example : repair_tool_groups settled_history ≡ settled_history
repair-eq_of_settled_example = repair-eq_of_settled settled_history settled_history-IsSettled
