-- ===== src/Examples/Texts.antt =====
-- A text of two characters of two bytes each, cut inside a character.
use mini_agent_harness.Prelude.{◌≤◌, refl, Text, [], ◌∷◌, codes, length, arith}
use mini_agent_harness.Tools.Truncate.{is_char_boundary, truncate_utf8}
use mini_agent_harness.Tools.Halves.{Halves, truncate_utf8-Halves}
use mini_agent_harness.Tools.Utf8.{IsUtf8, tail_ranges}
use mini_agent_harness.Tools.Cuts.{length-truncate_utf8, truncate_utf8-IsUtf8}

abbrev accents : Text
accents = 0xC3 ∷ 0xA9 ∷ 0xC3 ∷ 0xA8 ∷ []

accents-IsUtf8 : IsUtf8 accents
unfolding tail_ranges
accents-IsUtf8 = refl

truncate_utf8-IsUtf8_example : IsUtf8 (truncate_utf8 accents 3)
truncate_utf8-IsUtf8_example = truncate_utf8-IsUtf8 accents 3 accents-IsUtf8

length-truncate_utf8_example : length (truncate_utf8 accents 3) ≤ 3
length-truncate_utf8_example = length-truncate_utf8 accents 3

abbrev line : Text
line = codes "one two three four"

truncate_utf8-Halves_example : Halves line 15 1 17 (truncate_utf8 line 15)
unfolding is_char_boundary
truncate_utf8-Halves_example =
    truncate_utf8-Halves line 15 1 17 (omega arith) (omega arith) refl (omega arith) refl
      (omega arith) (omega arith)
