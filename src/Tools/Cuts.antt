-- ===== src/Tools/Cuts.antt =====
-- crates/mini-agent-core/src/tool_batch_executor.rs: the results of `truncate_utf8`.
use mini_agent_harness.Prelude.{
  ℕ, zero, suc, ◌+◌, ◌-◌, ◌≤◌, ◌<◌, ◌≡◌, refl, Text, true, ◌++◌, length, take, drop, length-append,
  length-take, length-drop, ◌/◌, leb, arith, Bool-cases, inl, inr,
}
use mini_agent_harness.Tools.Utf8.{IsUtf8, cut-IsUtf8, append-IsUtf8, tail_ranges}
use mini_agent_harness.Tools.Truncate.{
  is_char_boundary, floor_char_boundary, ceil_from, ceil_char_boundary, truncate_utf8, marker,
}

pub floor-le : (t : Text) (i : ℕ) → floor_char_boundary t i ≤ i
unfolding floor_char_boundary
floor-le t zero = omega arith
floor-le t (suc i) = ground (arith, floor-le t i)

floor_boundary : (t : Text) (i : ℕ) → is_char_boundary t (floor_char_boundary t i) ≡ true
unfolding floor_char_boundary
floor_boundary t zero = (unfold is_char_boundary in refl)
floor_boundary t (suc i) = ground (arith, floor_boundary t i)

pub le-ceil_from : (t : Text) (n i : ℕ) → i ≤ ceil_from t n i
unfolding ceil_from
le-ceil_from t zero i = omega arith
le-ceil_from t (suc n) i = ground (arith, le-ceil_from t n (i + 1))

end_boundary : (t : Text) → is_char_boundary t (length t) ≡ true
unfolding is_char_boundary
end_boundary t = ground arith

ceil_from-boundary :
    (t : Text) (n i : ℕ) → i + n ≡ length t → is_char_boundary t (ceil_from t n i) ≡ true
unfolding ceil_from
ceil_from-boundary t zero i h = let e : i ≡ length t = omega arith in rw e (end_boundary t)
ceil_from-boundary t (suc n) i h = ground (arith, ceil_from-boundary t n (i + 1))

ceil_boundary :
    (t : Text) (i : ℕ) → i ≤ length t → is_char_boundary t (ceil_char_boundary t i) ≡ true
unfolding ceil_char_boundary
ceil_boundary t i h = ceil_from-boundary t (length t - i) i (omega arith)

le-ceil : (t : Text) (i : ℕ) → i ≤ ceil_char_boundary t i
unfolding ceil_char_boundary
le-ceil t i = le-ceil_from t (length t - i) i

-- The result never exceeds the limit.
pub length-truncate_utf8 : (t : Text) (n : ℕ) → length (truncate_utf8 t n) ≤ n
unfolding truncate_utf8
length-truncate_utf8 t n = elim (Bool-cases (leb (length t) n)) [
  | inl fits ↦ rw fits (ground (arith, fits))
  | inr long ↦ elim (Bool-cases (leb n (length marker))) [
    | inl short ↦
        rw (long, short) (omega (arith, length-take (floor_char_boundary t n) t, floor-le t n))
    | inr room ↦ rw (long, room) (bound (ground (arith, long)) (ground (arith, room)))
  ]
]
  where
    r : ℕ
    r = n - length marker

    head : ℕ
    head = (r + 1) / 2

    tail : ℕ
    tail = r - head

    bound :
        n < length t
        → length marker < n
        → length (
            take (floor_char_boundary t head) t
            ++ (marker ++ drop (ceil_char_boundary t (length t - tail)) t))
          ≤ n
    bound h g = omega (
      arith,
      length-append (take (floor_char_boundary t head) t)
          (marker ++ drop (ceil_char_boundary t (length t - tail)) t),
      length-take (floor_char_boundary t head) t,
      length-drop (ceil_char_boundary t (length t - tail)) t,
      floor-le t head,
      le-ceil t (length t - tail),
    )

-- Whatever the limit, the result of truncating well-formed UTF-8 is well-formed UTF-8.
pub truncate_utf8-IsUtf8 : (t : Text) (n : ℕ) → IsUtf8 t → IsUtf8 (truncate_utf8 t n)
unfolding truncate_utf8
truncate_utf8-IsUtf8 t n h = elim (Bool-cases (leb (length t) n)) [
  | inl fits ↦ rw fits h
  | inr long ↦ elim (Bool-cases (leb n (length marker))) [
    | inl short ↦ rw (long, short) (cut-IsUtf8 t _ h (floor_boundary t n)).0
    | inr room ↦
        rw (long, room)
          (append-IsUtf8 _ _ (cut-IsUtf8 t _ h (floor_boundary t _)).0 (
            append-IsUtf8 marker _ (unfold tail_ranges in refl)
              (cut-IsUtf8 t _ h (ceil_boundary t _ (omega arith))).1))
  ]
]
