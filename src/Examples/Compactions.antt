-- ===== src/Examples/Compactions.antt =====
-- A settled history with three assistant messages, compacted.
use mini_agent_harness.Prelude.{◌≡◌, ◌≤◌, ◌<◌, ◌⊎◌, ◌↔◌, ◌++◌, ◌∷◌, true, [], codes, length}
use mini_agent_harness.Protocol.{user, context}
use mini_agent_harness.Session.Settled.{IsSettled}
use mini_agent_harness.Session.Bytes.{context_bytes_for}
use mini_agent_harness.Compaction.Waterline.{
  reached_watermark, TakesPercent, small_context_window_max, large_context_window_min,
  reached_watermark_iff,
}
use mini_agent_harness.Compaction.Parts.{
  split_prefix_tail, split_compaction_parts, assistant_starts, compact_tail_max_bytes,
}
use mini_agent_harness.Compaction.Shrink.{trim_prefix_to_fit, mechanical_compact}
use mini_agent_harness.Compaction.Partition.{IsStart, split_prefix_tail-Cut}
use mini_agent_harness.Compaction.Fit.{trim_prefix_to_fit_fits, mechanical_compact_fits}
use mini_agent_harness.Compaction.Replay.{split_compaction_parts-IsSettled}
use mini_agent_harness.Examples.Data.{json, settled_history, settled_history-IsSettled}

split_prefix_tail-Cut_example :
    let (prefix, tail) = split_prefix_tail json settled_history in
    (prefix ++ tail ≡ settled_history)
    × ((tail ≡ [])
        ⊎ (IsStart 0 tail
            × ((length (assistant_starts tail) ≤ 1)
                ⊎ (json.messages_len tail ≤ compact_tail_max_bytes))))
split_prefix_tail-Cut_example = split_prefix_tail-Cut json settled_history

split_compaction_parts-IsSettled_example :
    let (prefix, contexts, tail) = split_compaction_parts json settled_history in
    IsSettled prefix × (IsSettled contexts × IsSettled tail)
split_compaction_parts-IsSettled_example =
    split_compaction_parts-IsSettled json settled_history settled_history-IsSettled

trim_prefix_to_fit_fits_example :
    let p = trim_prefix_to_fit json (codes "sum up") [] [] 40 settled_history in
    (p ≡ []) ⊎ (context_bytes_for json [] (p ++ user (codes "sum up") ∷ []) [] ≤ 40)
trim_prefix_to_fit_fits_example =
    trim_prefix_to_fit_fits json (codes "sum up") [] [] 40 settled_history

mechanical_compact_fits_example :
    let p = mechanical_compact json settled_history (context (codes "<w>") ∷ []) [] 40 [] [] 100 in
    (p ≡ context (codes "<w>") ∷ []) ⊎ (context_bytes_for json [] p [] < 40)
mechanical_compact_fits_example =
    mechanical_compact_fits json [] [] [] 40 settled_history (context (codes "<w>") ∷ []) [] 100

reached_watermark_iff_example : (reached_watermark 100000 80000 ≡ true) ↔ (
    ((100000 ≤ small_context_window_max) × TakesPercent 80 100000 80000)
    ⊎ ((large_context_window_min ≤ 100000) × TakesPercent 50 100000 80000))
reached_watermark_iff_example = reached_watermark_iff 100000 80000
