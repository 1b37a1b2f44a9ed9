-- ===== src/Tools/Halves.antt =====
-- crates/mini-agent-core/src/tool_batch_executor.rs, `truncate_utf8`: what is kept of a text that is too
-- long.
use mini_agent_harness.Prelude.{
  ℕ, zero, suc, ◌+◌, ◌-◌, ◌/◌, ◌≤◌, ◌<◌, ◌≡◌, ◌≢◌, refl, sym, ap, Text, true, false, Bool-cases,
  inl, inr, [], ◌∷◌, ◌++◌, length, take, drop, take-append-drop, length-take, length-drop, leb,
  arith,
}
use mini_agent_harness.Tools.Truncate.{
  is_char_boundary, floor_char_boundary, ceil_from, ceil_char_boundary, truncate_utf8, marker,
}
use mini_agent_harness.Tools.Cuts.{floor-le, le-ceil_from}

-- the part between two cuts
middle : (i j : ℕ) (t : Text) → i ≤ j → (mid : Text) × (t ≡ take i t ++ (mid ++ drop j t))
middle zero j t h = (take j t, sym (take-append-drop j t))
middle (suc i) zero t h = absurd (omega arith)
middle (suc i) (suc j) [] h = ([], refl)
middle (suc i) (suc j) (b ∷ t) h =
    let (mid, e) = middle i j t (omega arith) in (mid, ap (λ l. b ∷ l) e)

-- two indexes of which one is a boundary
apart : (t : Text) (k n : ℕ) → is_char_boundary t k ≡ true → is_char_boundary t n ≡ false → k ≢ n
apart t k n b e same = cc (ap (is_char_boundary t) same)

-- no boundary up to the index is beyond the cut
le-floor : (t : Text) (k i : ℕ) → is_char_boundary t k ≡ true → k ≤ i → k ≤ floor_char_boundary t i
unfolding floor_char_boundary
le-floor t k zero b h = omega arith
le-floor t k (suc i) b h = elim (Bool-cases (is_char_boundary t (suc i))) [
  | inl here ↦ rw here h
  | inr inside ↦ rw inside (le-floor t k i b (omega (arith, h, apart t k (suc i) b inside)))
]

-- no boundary from the index on is before the cut
ceil_from-le :
    (t : Text) (n i l : ℕ) → is_char_boundary t l ≡ true → i ≤ l → l ≤ i + n → ceil_from t n i ≤ l
unfolding ceil_from
ceil_from-le t zero i l b h g = omega arith
ceil_from-le t (suc n) i l b h g = elim (Bool-cases (is_char_boundary t i)) [
  | inl here ↦ rw here h
  | inr inside ↦
      rw inside
        (ceil_from-le t n (i + 1) l b (omega (arith, h, apart t l i b inside)) (omega (arith, g)))
]

-- A head and a tail of the text around the marker, as long as a cut at the boundaries `k` and `l` would
-- leave them at least, and each within its half of the room at most.
abbrev pub Halves : Text → ℕ → ℕ → ℕ → Text → Type 0
Halves t n k l r =
    (head : Text) × (mid : Text) × (tail : Text) × (t ≡ head ++ (mid ++ tail))
    × (r ≡ head ++ (marker ++ tail))
    × (k ≤ length head)
    × (length head ≤ (n - length marker + 1) / 2)
    × (length t - l ≤ length tail)
    × (length tail ≤ n - length marker - (n - length marker + 1) / 2)

-- A text that exceeds a limit with room for the marker keeps a head and a tail around the marker, within
-- the room, and no character boundary allows a longer head or a longer tail in its half of it.
pub truncate_utf8-Halves :
    (t : Text) (n k l : ℕ)
    → n < length t
    → length marker < n
    → is_char_boundary t k ≡ true
    → k ≤ (n - length marker + 1) / 2
    → is_char_boundary t l ≡ true
    → length t ≤ l + (n - length marker - (n - length marker + 1) / 2)
    → l ≤ length t
    → Halves t n k l (truncate_utf8 t n)
unfolding truncate_utf8 ceil_char_boundary
truncate_utf8-Halves t n k l long room b small c large inside =
    let high = floor_char_boundary t ((n - length marker + 1) / 2) in
    let low = ceil_from t (length t - from) from in
    let first = floor-le t ((n - length marker + 1) / 2) in
    let last = le-ceil_from t (length t - from) from in
    let (mid, e) = middle high low t (omega (arith, first, last)) in
    rw (over, more)
      (
        take high t,
        mid,
        drop low t,
        e,
        refl,
        omega (arith, length-take high t, le-floor t k ((n - length marker + 1) / 2) b small),
        omega (arith, length-take high t, first),
        omega (
          arith,
          length-drop low t,
          ceil_from-le t (length t - from) from l c (omega arith) (omega arith),
        ),
        omega (arith, length-drop low t, last),
      )
  where
    from : ℕ
    from = length t - (n - length marker - (n - length marker + 1) / 2)

    over : leb (length t) n ≡ false
    over = ground arith

    more : leb n (length marker) ≡ false
    more = ground arith
