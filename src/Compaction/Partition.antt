-- ===== src/Compaction/Partition.antt =====
-- crates/mini-agent-core/src/context_controller.rs: where compaction cuts a history.
use mathlib.Core.Path.{subst}
use mini_agent_harness.Prelude.{
  ℕ, zero, suc, ◌+◌, ◌-◌, ◌≤◌, ◌<◌, min, ◌≡◌, refl, sym, ap, ◌∙◌, ◌⊎◌, inl, inr, false, Bool-cases,
  List, [], ◌∷◌, ◌++◌, length, take, drop, get_or, is_nil, take-append-drop, append-nil, ltb, arith,
}
use mini_agent_harness.Protocol.{Json, Message, context, user, assistant, tool}
use mini_agent_harness.Compaction.Parts.{
  starts_from, assistant_starts, shrink_tail, tail_start_of, split_prefix_tail,
  compact_tail_max_bytes,
}

module _ {V : Type 0} where
  -- an assistant message stands at the index
  abbrev pub IsStart : ℕ → List (Message V) → Type 0
  IsStart zero (assistant r t cs ∷ ms) = Unit
  IsStart zero _ = ⊥
  IsStart (suc k) [] = ⊥
  IsStart (suc k) (m ∷ ms) = IsStart k ms

  count : List (Message V) → ℕ
  count ms = length (starts_from 0 ms)

  length-starts_from :
      (a b : ℕ) (ms : List (Message V)) → length (starts_from a ms) ≡ length (starts_from b ms)
  unfolding starts_from
  length-starts_from a b [] = refl
  length-starts_from a b (assistant r t cs ∷ ms) = ap suc (length-starts_from (a + 1) (b + 1) ms)
  length-starts_from a b (user t ∷ ms) = length-starts_from (a + 1) (b + 1) ms
  length-starts_from a b (context t ∷ ms) = length-starts_from (a + 1) (b + 1) ms
  length-starts_from a b (tool i n x e o ∷ ms) = length-starts_from (a + 1) (b + 1) ms

  -- the start with number `i`, and how many there are from it on
  abbrev Found : ℕ → ℕ → List (Message V) → Type 0
  Found a i ms =
      (k : ℕ) × ((get_or (starts_from a ms) i 0 ≡ a + k)
        × (IsStart k ms × (count (drop k ms) + i ≡ length (starts_from a ms))))

  Found-later :
      (a i : ℕ) (m : Message V) (ms : List (Message V))
      → starts_from a (m ∷ ms) ≡ starts_from (a + 1) ms
      → Found (a + 1) i ms
      → Found a i (m ∷ ms)
  Found-later a i m ms e (k, (g, (s, c))) =
      (suc k, (omega (arith, g, ap (λ l. get_or l i 0) e), (s, c ∙ ap length (sym e))))

  found : (a i : ℕ) (ms : List (Message V)) → i < length (starts_from a ms) → Found a i ms
  unfolding starts_from count
  found a i [] h = absurd (omega arith)
  found a zero (assistant r t cs ∷ ms) h =
      (0, (omega arith, (tt, omega (arith, length-starts_from 1 (a + 1) ms))))
  found a (suc i) (assistant r t cs ∷ ms) h = next (found (a + 1) i ms (omega arith))
    where
      next : Found (a + 1) i ms → Found a (suc i) (assistant r t cs ∷ ms)
      next (k, (g, (s, c))) = (suc k, (omega (arith, g), (s, omega (arith, c))))
  found a i (user t ∷ ms) h = Found-later a i (user t) ms refl (found (a + 1) i ms h)
  found a i (context t ∷ ms) h = Found-later a i (context t) ms refl (found (a + 1) i ms h)
  found a i (tool j n x e o ∷ ms) h =
      Found-later a i (tool j n x e o) ms refl (found (a + 1) i ms h)

  IsStart-drop : (k j : ℕ) (ms : List (Message V)) → IsStart j (drop k ms) → IsStart (k + j) ms
  IsStart-drop zero j ms h = subst (λ n. IsStart n ms) (omega arith) h
  IsStart-drop (suc k) zero [] h = elim h [ ]
  IsStart-drop (suc k) (suc j) [] h = elim h [ ]
  IsStart-drop (suc k) j (m ∷ ms) h =
      subst (λ n. IsStart n (m ∷ ms)) {x = suc (k + j)} (omega arith) (IsStart-drop k j ms h)

  drop_nil : (n : ℕ) → drop {A = Message V} n [] ≡ []
  drop_nil zero = refl
  drop_nil (suc n) = refl

  drop-drop : (k j : ℕ) (ms : List (Message V)) → drop j (drop k ms) ≡ drop (k + j) ms
  drop-drop zero j ms = ap (λ n. drop n ms) (omega arith)
  drop-drop (suc k) zero [] = sym (drop_nil (suc k + 0))
  drop-drop (suc k) (suc j) [] = sym (drop_nil (suc k + suc j))
  drop-drop (suc k) j (m ∷ ms) =
      drop-drop k j ms ∙ ap (λ n. drop n (m ∷ ms)) {x = suc (k + j)} (omega arith)

  IsStart-here : (k : ℕ) (ms : List (Message V)) → IsStart k ms → IsStart 0 (drop k ms)
  IsStart-here zero ms h = h
  IsStart-here (suc k) [] h = h
  IsStart-here (suc k) (m ∷ ms) h = IsStart-here k ms h

  -- a cut that compaction may choose
  abbrev pub Cut : Json V → List (Message V) → ℕ → Type 0
  Cut J ms k =
      IsStart k ms
      × ((length (assistant_starts (drop k ms)) ≤ 1)
          ⊎ (J.messages_len (drop k ms) ≤ compact_tail_max_bytes))

  module _ (J : Json V) (ms : List (Message V)) where
    next :
        (fuel k : ℕ)
        → count (drop k ms) ≤ suc fuel
        → IsStart k ms
        → ((j : ℕ)
            → IsStart (k + j) ms
            → count (drop (k + j) ms) ≤ fuel
            → Cut J ms (shrink_tail J fuel ms (k + j)))
        → Found 0 1 (drop k ms)
        → Cut J ms (shrink_tail J fuel ms (k + get_or (starts_from 0 (drop k ms)) 1 0))
    unfolding count
    next fuel k h s again (j, (g, (t, c))) =
        subst (λ n. Cut J ms (shrink_tail J fuel ms (k + n))) {x = j} (omega (arith, g))
          (again j (IsStart-drop k j ms t)
            (subst (λ l. count l ≤ fuel) (drop-drop k j ms) (omega (arith, c, h))))

    shrink_tail-Cut :
        (fuel k : ℕ) → IsStart k ms → count (drop k ms) ≤ fuel → Cut J ms (shrink_tail J fuel ms k)
    unfolding shrink_tail assistant_starts count
    shrink_tail-Cut zero k s h = (s, inl (omega (arith, h)))
    shrink_tail-Cut (suc fuel) k s h = elim (Bool-cases (ltb 1 (count (drop k ms)))) [
      | inr few ↦ rw few (s, inl (ground (arith, few)))
      | inl many ↦ elim (Bool-cases (ltb compact_tail_max_bytes (J.messages_len (drop k ms)))) [
        | inr short ↦ rw (many, short) (s, inr (ground (arith, short)))
        | inl long ↦
            rw (many, long)
              (next fuel k h s (λ j. shrink_tail-Cut fuel (k + j))
                (found 0 1 (drop k ms) (ground (arith, many))))
      ]
    ]

    pub tail_start_of-Cut :
        is_nil (assistant_starts ms) ≡ false → Cut J ms (tail_start_of J ms (assistant_starts ms))
    unfolding tail_start_of assistant_starts count
    tail_start_of-Cut h =
        start (found 0 (count ms - min (count ms) 2) ms (omega (arith, some_start)))
      where
        some_start : 0 < count ms
        some_start = positive (starts_from 0 ms) h
          where
            positive : (l : List ℕ) → is_nil l ≡ false → 0 < length l
            positive [] x = cc
            positive (i ∷ l) x = omega arith

        start :
            Found 0 (count ms - min (count ms) 2) ms
            → Cut J ms (tail_start_of J ms (starts_from 0 ms))
        start (k, (g, (t, c))) =
            subst (λ n. Cut J ms (shrink_tail J (min (count ms) 2) ms n)) {x = k} (omega (arith, g))
              (shrink_tail-Cut (min (count ms) 2) k t (omega (arith, c)))

    -- The tail that compaction keeps, and the prefix before it, are the history: nothing is lost or
    -- moved. A tail starts at an assistant message, and holds one such message only, unless it is
    -- within the bound on its bytes.
    pub split_prefix_tail-Cut :
        let (prefix, tail) = split_prefix_tail J ms in
        (prefix ++ tail ≡ ms)
        × ((tail ≡ [])
            ⊎ (IsStart 0 tail
                × ((length (assistant_starts tail) ≤ 1)
                    ⊎ (J.messages_len tail ≤ compact_tail_max_bytes))))
    unfolding split_prefix_tail
    split_prefix_tail-Cut = elim (Bool-cases (is_nil (assistant_starts ms))) [
      | inl none ↦ rw none (append-nil ms, inl refl)
      | inr some ↦ rw some (cut (tail_start_of J ms (assistant_starts ms)) (tail_start_of-Cut some))
    ]
      where
        cut :
            (k : ℕ)
            → Cut J ms k
            → (take k ms ++ drop k ms ≡ ms)
              × ((drop k ms ≡ [])
                  ⊎ (IsStart 0 (drop k ms)
                      × ((length (assistant_starts (drop k ms)) ≤ 1)
                          ⊎ (J.messages_len (drop k ms) ≤ compact_tail_max_bytes))))
        cut k (s, few) = (take-append-drop k ms, inr (IsStart-here k ms s, few))
