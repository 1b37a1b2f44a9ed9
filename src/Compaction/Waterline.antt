-- ===== src/Compaction/Waterline.antt =====
-- crates/mini-agent-core/src/context_controller.rs, `usage_reaches_context_waterline`.
use mini_agent_harness.Prelude.{
  ℕ, ◌+◌, ◌*◌, ◌-◌, ◌/◌, ◌≤◌, ◌≡◌, ◌↔◌, ◌⊎◌, Bool, true, false, Option, none, some, ◌||◌,
  saturating_add, u64_max, ltb, leb, arith, if◌then◌else◌,
}
use mini_agent_harness.Protocol.{ModelContextSnapshot, ModelUsage}

abbrev pub small_context_window_max : ℕ
small_context_window_max = 262144

abbrev pub large_context_window_min : ℕ
large_context_window_min = 1000000

-- the percentage for a window, 0 where none applies
unfoldable pub waterline_percent : ℕ → ℕ
waterline_percent window =
    if leb window small_context_window_max
    then 80
    else if leb large_context_window_min window
    then 50
    else 0

unfoldable pub div_ceil : ℕ → ℕ → ℕ
div_ceil a b = (a + b - 1) / b

unfoldable pub reached_watermark : ℕ → ℕ → Bool
reached_watermark window input =
    if ltb 0 (waterline_percent window)
    then leb (div_ceil (window * waterline_percent window) 100) input
    else false

-- a reserve that passes the window is ignored
unfoldable pub output_reserve_exceeded : ℕ → Option ℕ → ℕ → Bool
output_reserve_exceeded window none input = false
output_reserve_exceeded window (some output) input =
    if leb output window then ltb window (saturating_add input output) else false

unfoldable pub reaches_in : Option ℕ → Option ℕ → ℕ → Bool
reaches_in none output input = false
reaches_in (some window) output input =
    if ltb 0 window
    then reached_watermark window input || output_reserve_exceeded window output input
    else false

unfoldable pub usage_reaches_context_waterline : ModelContextSnapshot → ModelUsage → Bool
usage_reaches_context_waterline c usage =
    reaches_in c.context_window_tokens c.max_output_tokens usage.input_tokens

-- The share of the window that the input takes, compared without rounding: at least `p` percent.
abbrev pub TakesPercent : ℕ → ℕ → ℕ → Type 0
TakesPercent p window input = window * p ≤ input * 100

-- In a small window the waterline is 80 percent of it, in a large one 50, between them none.
pub reached_watermark_iff :
    (window input : ℕ)
    → (reached_watermark window input ≡ true) ↔ (
        ((window ≤ small_context_window_max) × TakesPercent 80 window input)
        ⊎ ((large_context_window_min ≤ window) × TakesPercent 50 window input))
unfolding reached_watermark waterline_percent div_ceil
reached_watermark_iff window input = (λ h. ground arith, λ h. ground arith)

-- With the same window and output reserve, more input reaches a waterline that less input reaches.
pub reaches_mono :
    (window output : Option ℕ) (a b : ℕ)
    → a ≤ b
    → b ≤ u64_max
    → reaches_in window output a ≡ true
    → reaches_in window output b ≡ true
unfolding reaches_in reached_watermark output_reserve_exceeded
reaches_mono none output a b le top h = cc
reaches_mono (some w) none a b le top h = ground arith
reaches_mono (some w) (some o) a b le top h = ground arith
