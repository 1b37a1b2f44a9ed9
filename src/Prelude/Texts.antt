-- ===== src/Prelude/Texts.antt =====
-- Rust's `String` and `&str` are their UTF-8 bytes; `len` is the number of bytes.
use Prim.Native.Nat.{ℕ, zero, suc}
use Prim.Native.Char.{code}
use Prim.Native.String.{String}
use mathlib.Core.Path.{◌≡◌, refl}
use mathlib.Core.Logic.{◌↔◌}
use mathlib.Core.Bool.{Bool, true, false}
use mathlib.Core.List.{List, [], ◌∷◌, ◌++◌, map}
use mathlib.Core.Option.{Option, none, some}
use native.Mathlib.Omega.{arith}
use mini_agent_harness.Prelude.Tests.{◌==◌, is_some, if◌then◌else◌}
use mini_agent_harness.Prelude.Lists.{length, some_of}

abbrev pub Text : Type 0
Text = List ℕ

-- The bytes of an ASCII literal.
abbrev pub codes : String → Text
codes String.[] = []
codes (String.◌∷◌ c s) = code c ∷ codes s

abbrev pub text_eq : Text → Text → Bool
text_eq [] [] = true
text_eq [] (y ∷ ys) = false
text_eq (x ∷ xs) [] = false
text_eq (x ∷ xs) (y ∷ ys) = if x == y then text_eq xs ys else false

pub text_eq_iff : (a b : Text) → (text_eq a b ≡ true) ↔ (a ≡ b)
text_eq_iff [] [] = (λ _. refl, λ _. refl)
text_eq_iff [] (y ∷ ys) = (λ h. cc, λ h. cc)
text_eq_iff (x ∷ xs) [] = (λ h. cc, λ h. cc)
text_eq_iff (x ∷ xs) (y ∷ ys) = ground (arith, text_eq_iff xs ys)

pub text_eq_refl : (a : Text) → text_eq a a ≡ true
text_eq_refl a = (text_eq_iff a a).1 refl

-- `str::strip_prefix`
abbrev pub strip_prefix : Text → Text → Option Text
strip_prefix [] t = some t
strip_prefix (p ∷ ps) [] = none
strip_prefix (p ∷ ps) (c ∷ t) = if p == c then strip_prefix ps t else none

-- `str::starts_with` with a string.
abbrev pub starts_with : Text → Text → Bool
starts_with [] t = true
starts_with (p ∷ ps) [] = false
starts_with (p ∷ ps) (c ∷ t) = if p == c then starts_with ps t else false

pub strip_prefix-append : (p t : Text) → strip_prefix p (p ++ t) ≡ some t
strip_prefix-append [] t = refl
strip_prefix-append (c ∷ p) t = ground (arith, strip_prefix-append p t)

-- `HashSet<String>` as a list without duplicates, and the operations used on it.
abbrev pub text_mem : Text → List Text → Bool
text_mem a [] = false
text_mem a (x ∷ xs) = if text_eq x a then true else text_mem a xs

abbrev pub text_insert : Text → List Text → List Text
text_insert a xs = if text_mem a xs then xs else a ∷ xs

abbrev pub text_remove : Text → List Text → List Text
text_remove a [] = []
text_remove a (x ∷ xs) = if text_eq x a then text_remove a xs else x ∷ text_remove a xs

-- `str::split_once`
unfoldable pub split_once : Text → Text → Option (Text × Text)
split_once pat [] = elim (strip_prefix pat []) [ none ↦ none | some rest ↦ some ([], rest) ]
split_once pat (c ∷ t) = elim (strip_prefix pat (c ∷ t)) [
  | some rest ↦ some ([], rest)
  | none ↦ elim (split_once pat t) [ none ↦ none | some (a, b) ↦ some (c ∷ a, b) ]
]

-- `text.split(stops).next()`: the part before the first stop byte.
unfoldable pub before_any : List ℕ → Text → Text
before_any stops [] = []
before_any stops (c ∷ t) = if some_of (λ s. s == c) stops then [] else c ∷ before_any stops t

-- `str::contains` with a string.
unfoldable pub contains_text : Text → Text → Bool
contains_text pat t = is_some (split_once pat t)

-- the White_Space code points in UTF-8
abbrev pub white_spaces : List Text
white_spaces =
    (9 ∷ [])
    ∷ (10 ∷ [])
    ∷ (11 ∷ [])
    ∷ (12 ∷ [])
    ∷ (13 ∷ [])
    ∷ (32 ∷ [])
    ∷ (0xC2 ∷ 0x85 ∷ [])
    ∷ (0xC2 ∷ 0xA0 ∷ [])
    ∷ (0xE1 ∷ 0x9A ∷ 0x80 ∷ [])
    ∷ (0xE2 ∷ 0x80 ∷ 0x80 ∷ [])
    ∷ (0xE2 ∷ 0x80 ∷ 0x81 ∷ [])
    ∷ (0xE2 ∷ 0x80 ∷ 0x82 ∷ [])
    ∷ (0xE2 ∷ 0x80 ∷ 0x83 ∷ [])
    ∷ (0xE2 ∷ 0x80 ∷ 0x84 ∷ [])
    ∷ (0xE2 ∷ 0x80 ∷ 0x85 ∷ [])
    ∷ (0xE2 ∷ 0x80 ∷ 0x86 ∷ [])
    ∷ (0xE2 ∷ 0x80 ∷ 0x87 ∷ [])
    ∷ (0xE2 ∷ 0x80 ∷ 0x88 ∷ [])
    ∷ (0xE2 ∷ 0x80 ∷ 0x89 ∷ [])
    ∷ (0xE2 ∷ 0x80 ∷ 0x8A ∷ [])
    ∷ (0xE2 ∷ 0x80 ∷ 0xA8 ∷ [])
    ∷ (0xE2 ∷ 0x80 ∷ 0xA9 ∷ [])
    ∷ (0xE2 ∷ 0x80 ∷ 0xAF ∷ [])
    ∷ (0xE2 ∷ 0x81 ∷ 0x9F ∷ [])
    ∷ (0xE3 ∷ 0x80 ∷ 0x80 ∷ [])
    ∷ []

-- `char::is_whitespace` on the first character of a UTF-8 text
unfoldable pub starts_with_whitespace : Text → Bool
starts_with_whitespace t = some_of (λ w. starts_with w t) white_spaces

strip_any : List Text → Text → Option Text
strip_any [] t = none
strip_any (p ∷ ps) t = elim (strip_prefix p t) [ some rest ↦ some rest | none ↦ strip_any ps t ]

-- drops the patterns in front; each is a byte at least, so the length of the text is enough fuel
trim_start : List Text → ℕ → Text → Text
unfolding strip_any
trim_start patterns zero t = t
trim_start patterns (suc fuel) t = elim (strip_any patterns t) [
  | none ↦ t
  | some rest ↦ trim_start patterns fuel rest
]

reversed : {A : Type 0} → List A → List A → List A
reversed acc [] = acc
reversed acc (x ∷ xs) = reversed (x ∷ acc) xs

-- `str::trim`
unfoldable pub trim : Text → Text
unfolding trim_start reversed
trim t =
    let backward = reversed [] (trim_start white_spaces (length t) t) in
    reversed [] (trim_start (map (reversed []) white_spaces) (length backward) backward)
