-- ===== src/Tools/Truncate.antt =====
-- crates/mini-agent-core/src/tool_batch_executor.rs: `truncate_utf8` and the two loops that move a
-- cut to a character boundary. A text is its UTF-8 bytes.
use mini_agent_harness.Prelude.{
  ℕ, zero, suc, ◌+◌, ◌-◌, ◌/◌, Text, Bool, true, false, none, some, ◌∷◌, ◌++◌, not, ◌&&◌, codes,
  length, take, drop, get_elem?, ltb, leb, ◌==◌, if◌then◌else◌,
}

-- a continuation byte is 0b10xxxxxx
abbrev pub is_continuation : ℕ → Bool
is_continuation b = leb 128 b && ltb b 192

-- `str::is_char_boundary`: the ends, and each byte that starts a character
unfoldable pub is_char_boundary : Text → ℕ → Bool
is_char_boundary text index =
    if index == 0
    then true
    else if index == length text
    then true
    else elim (get_elem? text index) [ none ↦ false | some b ↦ not (is_continuation b) ]

-- `while index > 0 && !is_char_boundary(index) { index -= 1 }`
unfoldable pub floor_char_boundary : Text → ℕ → ℕ
floor_char_boundary text zero = zero
floor_char_boundary text (suc index) =
    let rest = floor_char_boundary text index in
    if is_char_boundary text (suc index) then suc index else rest

-- `while index < len && !is_char_boundary(index) { index += 1 }`, by the bytes that are left
unfoldable pub ceil_from : Text → ℕ → ℕ → ℕ
ceil_from text zero index = index
ceil_from text (suc left) index =
    let rest = ceil_from text left (index + 1) in
    if is_char_boundary text index then index else rest

unfoldable pub ceil_char_boundary : Text → ℕ → ℕ
unfolding ceil_from
ceil_char_boundary text index = ceil_from text (length text - index) index

abbrev pub marker : Text
marker = 10 ∷ codes "[truncated]"

unfoldable pub truncate_utf8 : Text → ℕ → Text
truncate_utf8 content max_bytes =
    let retained = max_bytes - length marker in
    let head_bytes = (retained + 1) / 2 in
    let tail_bytes = retained - head_bytes in
    if leb (length content) max_bytes
    then content
    else if leb max_bytes (length marker)
    then take (floor_char_boundary content max_bytes) content
    else take (floor_char_boundary content head_bytes) content
      ++ (marker ++ drop (ceil_char_boundary content (length content - tail_bytes)) content)
