-- ===== src/Harness/Fork.antt =====
-- crates/mini-agent-core/src/harness.rs, `prepare_fork_checkpoint`.
use mini_agent_harness.Prelude.{ℕ, Text, Option, none, some, List, []}
use mini_agent_harness.Protocol.{Json, ToolSpec, LimitExceeded}
use mini_agent_harness.Session.State.{SessionState}
use mini_agent_harness.Session.Bytes.{context_bytes}
use mini_agent_harness.Tools.Router
use mini_agent_harness.Harness.Config.{
  Result, ok, err, HarnessError, Harness, ForkContextPolicy, ForkCompactionMethod, ForkPreparation,
}
use mini_agent_harness.Harness.History.{ensure_context_limit}
use mini_agent_harness.Harness.Compact.{Run, compact_context}

-- the answer about a session that passes the limit, or the limit it passes not
unfoldable pub prepared :
    {V E : Type 0}
    → Option LimitExceeded
    → SessionState V
    → ℕ
    → ℕ
    → ForkCompactionMethod
    → Result (HarnessError E) (ForkPreparation V)
prepared (some e) session before after method = err (HarnessError.limit e)
prepared none session before after method = ok (record {
  session = session;
  context_before_bytes = before;
  context_after_bytes = after;
  method = method;
})

module _ {V W E : Type 0} (J : Json V) where
  -- after the compaction: `original` comes back, whatever the compaction answers
  unfoldable pub fork_compacted :
      List (ToolSpec V)
      → SessionState V
      → ℕ
      → Run V W E × Result (HarnessError E) ForkCompactionMethod
      → (W × Harness V W E) × Result (HarnessError E) (ForkPreparation V)
  unfolding prepared
  fork_compacted specs original before (r, err e) =
      ((r.world, record r.harness { session = original }), err e)
  fork_compacted specs original before (r, ok method) = (
    (r.world, record r.harness { session = original }),
    prepared (ensure_context_limit J specs r.harness) r.harness.session before
        (context_bytes J r.harness.config.system_prompt specs r.harness.session) method,
  )

  unfoldable pub prepare_fork_checkpoint :
      Text
      → ForkContextPolicy
      → W
      → Harness V W E
      → (W × Harness V W E) × Result (HarnessError E) (ForkPreparation V)
  unfolding prepared fork_compacted
  prepare_fork_checkpoint prompt ForkContextPolicy.exact w h =
      let specs = Router.specs h.tools in
      let before = context_bytes J h.config.system_prompt specs h.session in
      (
        (w, h),
        prepared (ensure_context_limit J specs h) h.session before before
            ForkCompactionMethod.exact,
      )
  prepare_fork_checkpoint prompt ForkContextPolicy.compact w h =
      let specs = Router.specs h.tools in
      fork_compacted specs h.session (context_bytes J h.config.system_prompt specs h.session)
        (compact_context J prompt specs (record { harness = h; events = []; world = w }))
