-- ===== src/Prelude/Words.antt =====
-- Machine words: `u64` and a 64-bit `usize`, with the saturating operations that the code uses.
use Prim.Native.Nat.{ℕ, ◌+◌, ◌*◌, ◌-◌, ◌^◌, ◌≤◌, min}
use mathlib.Core.Path.{◌≡◌}
use mathlib.Core.List.{List, [], ◌∷◌, ◌++◌}
use native.Mathlib.Omega.{arith}

abbrev pub u64_max : ℕ
u64_max = 2 ^ 64 - 1

-- `saturating_add` on `u64` and on a 64-bit `usize`.
abbrev pub saturating_add : ℕ → ℕ → ℕ
saturating_add a b = min (a + b) u64_max

-- `saturating_mul`
abbrev pub saturating_mul : ℕ → ℕ → ℕ
saturating_mul a b = min (a * b) u64_max

-- `iter().fold(0, saturating_add)`
abbrev pub saturating_sum : List ℕ → ℕ → ℕ
saturating_sum [] acc = acc
saturating_sum (x ∷ xs) acc = saturating_sum xs (saturating_add acc x)

abbrev pub sum : List ℕ → ℕ
sum [] = 0
sum (x ∷ xs) = x + sum xs

pub sum-append : (xs ys : List ℕ) → sum (xs ++ ys) ≡ sum xs + sum ys
sum-append [] ys = omega arith
sum-append (x ∷ xs) ys = omega (arith, sum-append xs ys)

-- A saturating sum is the sum, cut off at the largest word.
pub saturating_sum-eq-min :
    (xs : List ℕ) (acc : ℕ) → acc ≤ u64_max → saturating_sum xs acc ≡ min (acc + sum xs) u64_max
saturating_sum-eq-min [] acc h = omega arith
saturating_sum-eq-min (x ∷ xs) acc h =
    omega (arith, saturating_sum-eq-min xs (saturating_add acc x) (omega arith))
