-- ===== src/Character.antt =====
-- `Character` of src/core/Character.h and Character.cpp: one user-perceived character.
pub mod Ordering
use ycmd_cpp.Base.{
  ℕ, zero, suc, Bool, true, false, not, ◌&&◌, ◌||◌, List, [], ◌∷◌, ◌++◌, ◌==◌, if◌then◌else◌, Bytes,
  bytes_eq, length,
}
use ycmd_cpp.BreakProperty.{BreakProperty, extend, prepend, spacing_mark}
use ycmd_cpp.CodePoint.{CodePoint, code_point_lt}
use ycmd_cpp.Std.{Algorithms}

pub record Character : Type 0 where
  pub normal : Bytes
  pub base : Bytes
  pub folded_case : Bytes
  pub swapped_case : Bytes
  pub is_base : Bool
  pub is_letter : Bool
  pub is_punctuation : Bool
  pub is_uppercase : Bool

-- The test of the second `std::find_if`: a starter, which is never moved.
abbrev pub is_starter : CodePoint → Bool
is_starter cp = cp.combining_class == 0

-- The part before the position that `std::find_if` returns, and the part from it on.
unfoldable pub before_first {ℓ} : {A : Type ℓ} → (A → Bool) → List A → List A
before_first p [] = []
before_first p (x ∷ xs) = if p x then [] else x ∷ before_first p xs

unfoldable pub from_first {ℓ} : {A : Type ℓ} → (A → Bool) → List A → List A
from_first p [] = []
from_first p (x ∷ xs) = if p x then x ∷ xs else from_first p xs

module _ (std : Algorithms) where
  -- The `while`: each round passes the starters, and sorts the code points up to the next one.
  -- It takes at least one code point, so the length is enough fuel.
  unfoldable pub canonical_sort_fuel : ℕ → List CodePoint → List CodePoint
  unfolding before_first from_first code_point_lt
  canonical_sort_fuel zero cps = cps
  canonical_sort_fuel (suc fuel) [] = []
  canonical_sort_fuel (suc fuel) (cp ∷ cps) =
      let start = from_first (λ c. not (is_starter c)) (cp ∷ cps) in
      before_first (λ c. not (is_starter c)) (cp ∷ cps)
      ++ (std.sort code_point_lt (before_first is_starter start)
          ++ canonical_sort_fuel fuel (from_first is_starter start))

  unfoldable pub canonical_sort : List CodePoint → List CodePoint
  unfolding canonical_sort_fuel
  canonical_sort cps = canonical_sort_fuel (length cps) cps

-- The `switch` of the constructor: marks are no part of the base.
is_mark : BreakProperty → Bool
is_mark prepend = true
is_mark extend = true
is_mark spacing_mark = true
is_mark _ = false

-- One round of the constructor's loop.
unfoldable pub add_code_point : CodePoint → Character → Character
unfolding is_mark
add_code_point cp c = record {
  normal = c.normal ++ cp.normal;
  base = if is_mark cp.break_property then c.base else c.base ++ cp.folded_case;
  folded_case = c.folded_case ++ cp.folded_case;
  swapped_case = c.swapped_case ++ cp.swapped_case;
  is_base = if is_mark cp.break_property then false else c.is_base;
  is_letter = c.is_letter || cp.is_letter;
  is_punctuation = c.is_punctuation || cp.is_punctuation;
  is_uppercase = c.is_uppercase || cp.is_uppercase;
}

unfoldable pub add_code_points : List CodePoint → Character → Character
unfolding add_code_point
add_code_points [] c = c
add_code_points (cp ∷ cps) c = add_code_points cps (add_code_point cp c)

abbrev pub empty_character : Character
empty_character = record {
  normal = [];
  base = [];
  folded_case = [];
  swapped_case = [];
  is_base = true;
  is_letter = false;
  is_punctuation = false;
  is_uppercase = false;
}

-- The constructor, from the code points of its text.
unfoldable pub from_code_points : Algorithms → List CodePoint → Character
unfolding canonical_sort add_code_points
from_code_points std cps = add_code_points (canonical_sort std cps) empty_character

unfoldable pub equals_base : Character → Character → Bool
equals_base c other = bytes_eq c.base other.base

unfoldable pub equals_ignore_case : Character → Character → Bool
equals_ignore_case c other = bytes_eq c.folded_case other.folded_case

unfoldable pub matches_smart : Character → Character → Bool
unfolding equals_base equals_ignore_case
matches_smart c other =
    (c.is_base && equals_base c other && (not c.is_uppercase || other.is_uppercase))
    || (not c.is_uppercase && equals_ignore_case c other)
    || bytes_eq c.normal other.normal
