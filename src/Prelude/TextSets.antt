-- ===== src/Prelude/TextSets.antt =====
-- Membership in the lists that stand for sets of texts.
use mathlib.Core.Path.{◌≡◌, refl}
use mathlib.Core.Bool.{true, false}
use mathlib.Core.List.{List, [], ◌∷◌}
use native.Mathlib.Omega.{arith}
use mini_agent_harness.Prelude.Tests.{if◌then◌else◌}
use mini_agent_harness.Prelude.Lists.{is_nil}
use mini_agent_harness.Prelude.Texts.{
  Text, text_eq, text_eq_iff, text_eq_refl, text_mem, text_insert, text_remove,
}

pub text_mem-remove :
    (a x : Text) (xs : List Text)
    → text_mem x (text_remove a xs) ≡ (if text_eq a x then false else text_mem x xs)
text_mem-remove a x [] = ground arith
text_mem-remove a x (y ∷ xs) =
    ground (arith, text_mem-remove a x xs, text_eq_iff y a, text_eq_iff a x, text_eq_iff y x)

pub text_mem-insert :
    (a x : Text) (xs : List Text)
    → text_mem x (text_insert a xs) ≡ (if text_eq a x then true else text_mem x xs)
text_mem-insert a x xs = ground (arith, text_eq_iff a x)

-- A list without members is empty.
pub nil_of_no_mem : (xs : List Text) → ((x : Text) → text_mem x xs ≡ false) → xs ≡ []
nil_of_no_mem [] h = refl
nil_of_no_mem (x ∷ xs) h = ground (arith, h x, text_eq_refl x)

pub not_nil_of_mem : (x : Text) (xs : List Text) → text_mem x xs ≡ true → is_nil xs ≡ false
not_nil_of_mem x [] h = cc
not_nil_of_mem x (y ∷ xs) h = refl

-- The texts are pairwise different.
abbrev pub Distinct : List Text → Type 0
Distinct [] = Unit
Distinct (x ∷ xs) = (text_mem x xs ≡ false) × Distinct xs
