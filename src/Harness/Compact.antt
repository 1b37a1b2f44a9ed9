-- ===== src/Harness/Compact.antt =====
-- crates/mini-agent-core/src/harness.rs and turn_engine.rs: compacting the history with the model's
-- summary, or without it. `Run` is a harness with what it has told its observer, and the world.
use mini_agent_harness.Prelude.{
  ℕ, ◌+◌, ◌/◌, Text, Bool, false, not, ◌&&◌, ◌||◌, Option, none, some, List, [], ◌∷◌, ◌++◌, codes,
  length, is_nil, ltb, leb, trim, if◌then◌else◌,
}
use mini_agent_harness.Protocol.{
  Json, Message, ToolSpec, ModelResponse, ModelUsage, Event, LimitExceeded, LimitKind, RunFailure,
  user,
}
use mini_agent_harness.Session.State
use mini_agent_harness.Session.Bytes.{context_bytes_for, context_bytes}
use mini_agent_harness.Compaction.Parts.{decimal, split_compaction_parts}
use mini_agent_harness.Compaction.Shrink.{
  bounded_compaction_prompt, trim_prefix_to_fit, assemble_compacted, mechanical_compact,
}
use mini_agent_harness.Harness.Config.{
  Result, ok, err, HarnessConfig, HarnessError, Harness, ModelRequest, ForkCompactionMethod,
}

pub record Run (V W E : Type 0) : Type 0 where
  pub harness : Harness V W E
  pub events : List (Event V)
  pub world : W

module _ {V W E : Type 0} where
  unfoldable pub observe : Event V → Run V W E → Run V W E
  observe event r = record r { events = r.events ++ event ∷ [] }

  replace_history : List (Message V) → Run V W E → Run V W E
  replace_history messages r = record r {
    harness = record r.harness { session = State.replace_messages messages r.harness.session };
  }

  unfoldable pub fail_limit : LimitExceeded → Run V W E → Run V W E × HarnessError E
  unfolding observe
  fail_limit e r =
      (observe (Event.run_failed (RunFailure.limit_exceeded e)) r, HarnessError.limit e)

  unfoldable pub fail_compaction : Text → Run V W E → Run V W E × HarnessError E
  unfolding observe
  fail_compaction reason r =
      (observe (Event.run_failed RunFailure.compaction) r, HarnessError.compaction reason)

  refuse : {A : Type 0} → Run V W E × HarnessError E → Run V W E × Result (HarnessError E) A
  refuse (r, e) = (r, err e)

module _ {V : Type 0} (J : Json V) where
  unfoldable pub model_response_bytes : ModelResponse V → ℕ
  model_response_bytes response =
      length response.reasoning + length response.text + J.calls_len response.tool_calls

  -- the history with the summary, if the response is one and reaches what it has to
  unfoldable pub summary_candidate :
      HarnessConfig
      → List (ToolSpec V)
      → ℕ
      → ℕ
      → Bool
      → List (Message V)
      → List (Message V)
      → Option (ModelResponse V)
      → Option (List (Message V))
  summary_candidate config specs before compact_at must_reach contexts tail none = none
  summary_candidate config specs before compact_at must_reach contexts tail (some response) =
      let summary = trim response.text in
      let candidate = assemble_compacted (some summary) contexts tail config.max_user_input_bytes in
      let after = context_bytes_for J config.system_prompt candidate specs in
      if (leb (model_response_bytes response) config.max_model_response_bytes
          && (is_nil response.tool_calls && not (is_nil summary)))
        && (ltb after before
            && (leb after config.max_context_bytes && (not must_reach || ltb after compact_at)))
      then some candidate
      else none

-- `.ok()`
unfoldable pub to_option : {E A : Type 0} → Result E A → Option A
to_option (ok a) = some a
to_option (err e) = none

usage_of : {V : Type 0} → Option (ModelResponse V) → Option ModelUsage
usage_of none = none
usage_of (some response) = response.usage

module _ {V W E : Type 0} (J : Json V) where
  unfoldable pub finish_compacted :
      List (Message V)
      → ℕ
      → Option ModelUsage
      → List (ToolSpec V)
      → Run V W E
      → Run V W E × Result (HarnessError E) Unit
  unfolding refuse replace_history observe
  finish_compacted compacted before usage specs r =
      let config = r.harness.config in
      let after = context_bytes_for J config.system_prompt compacted specs in
      if leb before after
      then refuse (
          fail_compaction
            (codes "summary did not reduce context: "
              ++ (decimal before ++ (codes " -> " ++ (decimal after ++ codes " bytes"))))
            r)
      else if ltb config.max_context_bytes after
      then refuse (
          fail_limit
            (record {
              kind = LimitKind.context_bytes;
              limit = config.max_context_bytes;
              actual = after;
            })
            r)
      else (
        observe (Event.context_compaction_finished before after usage)
            (replace_history compacted r),
        ok tt,
      )

  -- the request for a summary
  unfoldable pub summary_request : Harness V W E → Text → List (Message V) → ModelRequest V
  summary_request h compaction_prompt prefix = record {
    system_prompt = h.config.system_prompt;
    messages = prefix ++ user compaction_prompt ∷ [];
    tools = [];
    allowed_tools = none;
    max_response_bytes = h.config.max_model_response_bytes;
    model_selection = h.model_selection;
    reasoning_selection = h.reasoning_selection;
    reasoning_effort = h.reasoning_effort;
  }

  -- `self.finish_compacted(..)?; Ok(method)`
  unfoldable pub finished :
      ForkCompactionMethod
      → Run V W E × Result (HarnessError E) Unit
      → Run V W E × Result (HarnessError E) ForkCompactionMethod
  finished method (r, ok _) = (r, ok method)
  finished method (r, err e) = (r, err e)

  -- what is done with the model's answer
  unfoldable pub use_response :
      List (ToolSpec V)
      → ℕ
      → Bool
      → ℕ
      → List (Message V)
      → List (Message V)
      → List (Message V)
      → Option (ModelResponse V)
      → Run V W E
      → Run V W E × Result (HarnessError E) ForkCompactionMethod
  unfolding finished usage_of
  use_response specs compact_at must_reach before prefix contexts tail response r =
      let config = r.harness.config in
      elim (summary_candidate J config specs before compact_at must_reach contexts tail response) [
        | some compacted ↦
            finished ForkCompactionMethod.model_summary
              (finish_compacted compacted before (usage_of response) specs r)
        | none ↦ finished ForkCompactionMethod.mechanical (
            finish_compacted
              (mechanical_compact J prefix contexts tail compact_at config.system_prompt specs
                config.max_user_input_bytes)
              before (usage_of response) specs r)
      ]

  -- `prompt` is the text of builtin/prompts/system/compaction.md
  unfoldable pub compact_context_to :
      Text
      → List (ToolSpec V)
      → ℕ
      → Bool
      → Run V W E
      → Run V W E × Result (HarnessError E) ForkCompactionMethod
  unfolding finished to_option observe
  compact_context_to prompt specs compact_at must_reach r =
      let h = r.harness in
      let config = h.config in
      let before = context_bytes J config.system_prompt specs h.session in
      let (prefix, contexts, tail) = split_compaction_parts J h.session.messages in
      let compaction_prompt = bounded_compaction_prompt prompt config.max_user_input_bytes in
      let started = observe (Event.context_compaction_started before) r in
      let trimmed =
        trim_prefix_to_fit J compaction_prompt config.system_prompt [] config.max_context_bytes
          prefix in
      let (world, response) = h.model (summary_request h compaction_prompt trimmed) r.world in
      if is_nil prefix
      then (r, ok ForkCompactionMethod.exact)
      else if is_nil trimmed
      then finished ForkCompactionMethod.mechanical (
          finish_compacted (assemble_compacted none contexts tail config.max_user_input_bytes)
            before none specs started)
      else use_response specs compact_at must_reach before trimmed contexts tail
          (to_option response) (record started { world = world })

  unfoldable pub compact_context :
      Text
      → List (ToolSpec V)
      → Run V W E
      → Run V W E × Result (HarnessError E) ForkCompactionMethod
  compact_context prompt specs r =
      compact_context_to prompt specs (r.harness.config.max_context_bytes / 2) false r
