-- ===== src/Tools/Utf8.antt =====
-- Well-formed UTF-8, as a specification (Unicode, table 3-7), and cuts at character boundaries.
use mathlib.Core.Path.{subst}
use mini_agent_harness.Prelude.{
  sym, ◌∙◌, Option-cases, ℕ, zero, suc, ◌≤◌, ◌≡◌, refl, Text, Bool, true, false, Option, none, some,
  List, [], ◌∷◌, ◌++◌, ◌&&◌, not, length, take, drop, get_elem?, ltb, leb, ◌==◌, All, arith,
  if◌then◌else◌, Bool-cases, inl, inr,
}
use mini_agent_harness.Tools.Truncate.{is_continuation, is_char_boundary}

abbrev Range : Type 0
Range = ℕ × ℕ

-- the ranges of the bytes that must follow a lead byte; `none`: no character starts so
unfoldable pub tail_ranges : ℕ → Option (List Range)
tail_ranges b =
    if ltb b 0x80
    then some []
    else if ltb b 0xC2
    then none
    else if ltb b 0xE0
    then some ((0x80, 0xBF) ∷ [])
    else if b == 0xE0
    then some ((0xA0, 0xBF) ∷ (0x80, 0xBF) ∷ [])
    else if b == 0xED
    then some ((0x80, 0x9F) ∷ (0x80, 0xBF) ∷ [])
    else if ltb b 0xF0
    then some ((0x80, 0xBF) ∷ (0x80, 0xBF) ∷ [])
    else if b == 0xF0
    then some ((0x90, 0xBF) ∷ (0x80, 0xBF) ∷ (0x80, 0xBF) ∷ [])
    else if ltb b 0xF4
    then some ((0x80, 0xBF) ∷ (0x80, 0xBF) ∷ (0x80, 0xBF) ∷ [])
    else if b == 0xF4
    then some ((0x80, 0x8F) ∷ (0x80, 0xBF) ∷ (0x80, 0xBF) ∷ [])
    else none

-- `pending`: the ranges of the bytes that complete the character which is open
abbrev pub utf8_from : List Range → Text → Bool
utf8_from [] [] = true
utf8_from (r ∷ rs) [] = false
utf8_from [] (b ∷ t) = elim (tail_ranges b) [ none ↦ false | some rs ↦ utf8_from rs t ]
utf8_from ((lo, hi) ∷ rs) (b ∷ t) =
    let rest = utf8_from rs t in if leb lo b && leb b hi then rest else false

abbrev pub IsUtf8 : Text → Type 0
IsUtf8 t = utf8_from [] t ≡ true

abbrev IsTail : Range → Type 0
IsTail r = (128 ≤ r.0) × (r.1 ≤ 191)

-- what `tail_ranges` lists are ranges of continuation bytes
Tails : Option (List Range) → Type 0
Tails none = Unit
Tails (some rs) = All IsTail rs

tail_ranges-Tails : (b : ℕ) → Tails (tail_ranges b)
unfolding tail_ranges Tails
tail_ranges-Tails b = ground arith

abbrev boundary_at : Text → ℕ → Bool
boundary_at t i =
    if i == length t
    then true
    else elim (get_elem? t i) [ none ↦ false | some b ↦ not (is_continuation b) ]

boundary_at-suc :
    (b : ℕ) (t : Text) (i : ℕ) → boundary_at (b ∷ t) (suc i) ≡ true → boundary_at t i ≡ true
boundary_at-suc b t i h = ground arith

utf8-lead :
    (b : ℕ) (t : Text) {rs : List Range}
    → tail_ranges b ≡ some rs
    → utf8_from [] (b ∷ t) ≡ utf8_from rs t
utf8-lead b t e = rw (e, utf8_from)

utf8-no_lead : (b : ℕ) (t : Text) → tail_ranges b ≡ none → utf8_from [] (b ∷ t) ≡ false
utf8-no_lead b t e = rw (e, utf8_from)

Tails_of : (b : ℕ) {rs : List Range} → tail_ranges b ≡ some rs → All IsTail rs
unfolding Tails
Tails_of b e = subst Tails e (tail_ranges-Tails b)

utf8-tail :
    (lo hi b : ℕ) (rs : List Range) (t : Text)
    → (leb lo b && leb b hi) ≡ true
    → utf8_from ((lo, hi) ∷ rs) (b ∷ t) ≡ utf8_from rs t
utf8-tail lo hi b rs t e = rw e

utf8-inv :
    (lo hi b : ℕ) (rs : List Range) (t : Text)
    → utf8_from ((lo, hi) ∷ rs) (b ∷ t) ≡ true
    → ((leb lo b && leb b hi) ≡ true) × (utf8_from rs t ≡ true)
utf8-inv lo hi b rs t h = elim (Bool-cases (leb lo b && leb b hi)) [
  | inl e ↦ (e, sym (utf8-tail lo hi b rs t e) ∙ h)
  | inr e ↦ cc (rejected e)
]
  where
    rejected : (leb lo b && leb b hi) ≡ false → utf8_from ((lo, hi) ∷ rs) (b ∷ t) ≡ false
    rejected e = rw e

cut :
    (rs : List Range) (t : Text) (i : ℕ)
    → All IsTail rs
    → utf8_from rs t ≡ true
    → boundary_at t i ≡ true
    → (utf8_from rs (take i t) ≡ true) × (utf8_from [] (drop i t) ≡ true)
cut [] [] zero a h c = (refl, refl)
cut [] [] (suc i) a h c = (refl, refl)
cut (r ∷ rs) [] i a h c = cc
cut [] (b ∷ t) zero a h c = (refl, h)
cut [] (b ∷ t) (suc i) a h c = elim (Option-cases (tail_ranges b)) [
  | inl e ↦ cc (utf8-no_lead b t e)
  | inr (rs, e) ↦
      let ih = cut rs t i (Tails_of b e) (sym (utf8-lead b t e) ∙ h) (boundary_at-suc b t i c) in
      (utf8-lead b (take i t) e ∙ ih.0, ih.1)
]
cut ((lo, hi) ∷ rs) (b ∷ t) zero a h c = absurd (ground (arith, a, h, c))
cut ((lo, hi) ∷ rs) (b ∷ t) (suc i) a h c =
    let (fits, rest) = utf8-inv lo hi b rs t h in
    let ih = cut rs t i a.1 rest (boundary_at-suc b t i c) in
    (utf8-tail lo hi b rs (take i t) fits ∙ ih.0, ih.1)

-- A well-formed text cut at a character boundary gives two well-formed texts.
pub cut-IsUtf8 :
    (t : Text) (i : ℕ)
    → IsUtf8 t
    → is_char_boundary t i ≡ true
    → IsUtf8 (take i t) × IsUtf8 (drop i t)
unfolding is_char_boundary
cut-IsUtf8 t zero h c = (refl, h)
cut-IsUtf8 t (suc i) h c = cut [] t (suc i) tt h (ground arith)

utf8-append :
    (rs : List Range) (s t : Text) → utf8_from rs s ≡ true → IsUtf8 t → utf8_from rs (s ++ t) ≡ true
utf8-append [] [] t h g = g
utf8-append (r ∷ rs) [] t h g = cc
utf8-append [] (b ∷ s) t h g = elim (Option-cases (tail_ranges b)) [
  | inl e ↦ cc (utf8-no_lead b s e)
  | inr (rs, e) ↦ utf8-lead b (s ++ t) e ∙ utf8-append rs s t (sym (utf8-lead b s e) ∙ h) g
]
utf8-append ((lo, hi) ∷ rs) (b ∷ s) t h g = ground (arith, utf8-append rs s t, h, g)

pub append-IsUtf8 : (s t : Text) → IsUtf8 s → IsUtf8 t → IsUtf8 (s ++ t)
append-IsUtf8 s t h g = utf8-append [] s t h g
