-- ===== src/Host/Goal/Verdict.antt =====
-- crates/mini-agent-host/src/goal.rs, `parse_verifier_verdict`: the answer of a verifier.
use mini_agent_harness.Prelude.{
  ℕ, ◌+◌, ◌*◌, ◌-◌, ◌^◌, Text, Bool, Option, none, some, List, [], ◌∷◌, codes, map, leb, ◌==◌, ◌&&◌,
  ◌||◌, trim, contains_text, starts_with, is_nil, or_else, if◌then◌else◌,
}
use mini_agent_harness.Host.Goal.State.{VerdictOutcome, VerifierVerdict}

-- `to_ascii_lowercase`
to_ascii_lowercase : Text → Text
to_ascii_lowercase = map (λ b. if leb 65 b && leb b 90 then b + 32 else b)

-- `str::split` on one byte: at least one part
split_on : ℕ → Text → Text × List Text
split_on stop [] = ([], [])
split_on stop (b ∷ bs) =
    let (first, others) = split_on stop bs in
    if b == stop then ([], first ∷ others) else (b ∷ first, others)

-- a line without the carriage return at its end
strip_return : Text → Text
strip_return [] = []
strip_return (b ∷ []) = if b == 13 then [] else b ∷ []
strip_return (b ∷ c ∷ t) = b ∷ strip_return (c ∷ t)

-- a line that a line feed ends; the last one, that the end of the text ends, is kept unless it is empty
lines_of : Text → List Text → List Text
unfolding strip_return
lines_of last [] = if is_nil last then [] else last ∷ []
lines_of first (second ∷ others) = strip_return first ∷ lines_of second others

-- `str::lines`
unfoldable pub lines : Text → List Text
unfolding split_on lines_of
lines t = let (first, others) = split_on 10 t in lines_of first others

find_line : (Text → Bool) → List Text → Option Text
find_line test [] = none
find_line test (l ∷ ls) = if test l then some l else find_line test ls

digits : Text → Text
digits [] = []
digits (b ∷ bs) = if leb 48 b && leb b 57 then b ∷ digits bs else []

value_of : ℕ → Text → ℕ
value_of n [] = n
value_of n (b ∷ bs) = value_of (n * 10 + (b - 48)) bs

-- `parse::<u32>().ok()` of digits
parse_u32 : Text → Option ℕ
unfolding value_of
parse_u32 [] = none
parse_u32 (b ∷ bs) = let n = value_of 0 (b ∷ bs) in if leb n (2 ^ 32 - 1) then some n else none

-- `line.split(':').nth(1)`
second_part : Text → Option Text
unfolding split_on
second_part line = elim (split_on 58 line).1 [ [] ↦ none | part ∷ others ↦ some part ]

unfoldable pub outcome_of : Text → VerdictOutcome
unfolding contains_text
outcome_of lower =
    if contains_text (codes "verdict: approved") lower
      || (contains_text (codes "verdict: approve") lower
          || contains_text (codes "**verdict**: approved") lower)
    then VerdictOutcome.approved
    else (if contains_text (codes "verdict: needs_clarification") lower
          || contains_text (codes "verdict: clarification") lower
        then VerdictOutcome.needs_clarification
        else (if contains_text (codes "verdict: rejected") lower
              || contains_text (codes "verdict: reject") lower
            then VerdictOutcome.rejected
            else VerdictOutcome.invalid))

score_part : Option Text → Option ℕ
unfolding parse_u32 digits
score_part none = none
score_part (some part) = parse_u32 (digits (trim part))

score_of : Option Text → Option ℕ
unfolding score_part second_part
score_of none = none
score_of (some line) = score_part (second_part line)

is_score : Text → Bool
unfolding to_ascii_lowercase contains_text
is_score line = contains_text (codes "score:") (to_ascii_lowercase line)

is_summary : Text → Bool
unfolding to_ascii_lowercase contains_text
is_summary line =
    contains_text (codes "summary:") (to_ascii_lowercase line)
    || starts_with (codes "### Summary") line

unfoldable pub parse_verifier_verdict : Text → VerifierVerdict
unfolding to_ascii_lowercase outcome_of lines find_line is_score score_of is_summary
parse_verifier_verdict content = record {
  outcome = outcome_of (to_ascii_lowercase content);
  score = score_of (find_line is_score (lines content));
  summary = or_else (find_line is_summary (lines content)) (codes "No summary provided");
}
