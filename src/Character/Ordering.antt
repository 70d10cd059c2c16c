-- ===== src/Character/Ordering.antt =====
-- The order of the code points of a character. The Canonical Ordering Algorithm of the Unicode standard
-- also keeps the order of code points with equal combining class, which `std::sort` need not do.
use mathlib.Core.List.{Perm}
use mathlib.Core.Path.{subst}
use ycmd_cpp.Base.{
  ℕ, zero, suc, ◌≡◌, refl, ap, ◌∙◌, Bool, true, false, not, List, [], ◌∷◌, ◌++◌, length, ◌≤◌, arith,
  All, Bool-cases, inl, inr,
}
use ycmd_cpp.CodePoint.{CodePoint, code_point_lt}
use ycmd_cpp.Std.{Algorithms, IsLawful, IsStrictWeak, IsSorted}
use ycmd_cpp.Character.{is_starter, before_first, from_first, canonical_sort_fuel, canonical_sort}

abbrev pub StartsWithStarter : List CodePoint → Type 0
StartsWithStarter [] = Unit
StartsWithStarter (cp ∷ cps) = is_starter cp ≡ true

-- The second list orders the first: starters stay where they are, and each maximal run of other code
-- points is sorted by combining class, in any order where the classes are equal.
pub data IsOrdering : List CodePoint → List CodePoint → Type 0 where
  ends : IsOrdering [] []
  starter :
      (cp : CodePoint) (cps ordered : List CodePoint)
      → is_starter cp ≡ true
      → IsOrdering cps ordered
      → IsOrdering (cp ∷ cps) (cp ∷ ordered)
  run :
      (marks sorted cps ordered : List CodePoint)
      → All (λ cp. is_starter cp ≡ false) marks
      → StartsWithStarter cps
      → Perm sorted marks
      → IsSorted code_point_lt sorted
      → IsOrdering cps ordered
      → IsOrdering (marks ++ cps) (sorted ++ ordered)

abbrev is_combining : CodePoint → Bool
is_combining cp = not (is_starter cp)

before_first-from_first :
    (p : CodePoint → Bool) (cps : List CodePoint) → before_first p cps ++ from_first p cps ≡ cps
unfolding before_first from_first
before_first-from_first p [] = refl
before_first-from_first p (cp ∷ cps) = elim (Bool-cases (p cp)) [
  | inl e ↦ rw e refl
  | inr e ↦ rw e (ap (◌∷◌ cp) (before_first-from_first p cps))
]

before_first-All :
    (p : CodePoint → Bool) (cps : List CodePoint) → All (λ cp. p cp ≡ false) (before_first p cps)
unfolding before_first
before_first-All p [] = tt
before_first-All p (cp ∷ cps) = elim (Bool-cases (p cp)) [
  | inl e ↦ rw e tt
  | inr e ↦ rw e (e, before_first-All p cps)
]

from_first-StartsWithStarter :
    (cps : List CodePoint) → StartsWithStarter (from_first is_starter cps)
unfolding from_first
from_first-StartsWithStarter [] = tt
from_first-StartsWithStarter (cp ∷ cps) = elim (Bool-cases (is_starter cp)) [
  | inl e ↦ rw e e
  | inr e ↦ rw e (from_first-StartsWithStarter cps)
]

length-from_first :
    (p : CodePoint → Bool) (cps : List CodePoint) → length (from_first p cps) ≤ length cps
unfolding from_first
length-from_first p [] = omega arith
length-from_first p (cp ∷ cps) =
    let shorter = length-from_first p cps in
    elim (Bool-cases (p cp)) [ inl e ↦ rw e (omega arith) | inr e ↦ rw e (omega arith) ]

-- A round takes at least one code point.
length-round :
    (cp : CodePoint) (cps : List CodePoint)
    → length (from_first is_starter (from_first is_combining (cp ∷ cps))) ≤ length cps
unfolding from_first
length-round cp cps = elim (Bool-cases (is_starter cp)) [
  | inl e ↦
      (let first = length-from_first is_combining cps in
        let second = length-from_first is_starter (from_first is_combining cps) in
        rw e (omega arith))
  | inr e ↦ (let shorter = length-from_first is_starter cps in rw (e, e) (omega arith))
]

starters-IsOrdering :
    (starters cps ordered : List CodePoint)
    → All (λ cp. is_combining cp ≡ false) starters
    → IsOrdering cps ordered
    → IsOrdering (starters ++ cps) (starters ++ ordered)
starters-IsOrdering [] cps ordered h o = o
starters-IsOrdering (cp ∷ starters) cps ordered (h, hs) o =
    starter cp (starters ++ cps) (starters ++ ordered) (ground (arith, h))
      (starters-IsOrdering starters cps ordered hs o)

code_point_lt-IsStrictWeak : IsStrictWeak (λ (cp : CodePoint). Unit {0}) code_point_lt
unfolding code_point_lt
code_point_lt-IsStrictWeak = record {
  irrefl = λ a p. ground arith;
  trans = λ a b c p q r first second. ground (arith, first, second);
  incomparable_trans = λ a b c p q r first second. ground (arith, first, second);
}

module _ (std : Algorithms) (law : IsLawful std) where
  canonical_sort_fuel-IsOrdering :
      (fuel : ℕ) (cps : List CodePoint)
      → length cps ≤ fuel
      → IsOrdering cps (canonical_sort_fuel std fuel cps)
  unfolding canonical_sort_fuel
  canonical_sort_fuel-IsOrdering zero [] h = ends
  canonical_sort_fuel-IsOrdering zero (cp ∷ cps) h = absurd (omega (arith, h))
  canonical_sort_fuel-IsOrdering (suc fuel) [] h = ends
  canonical_sort_fuel-IsOrdering (suc fuel) (cp ∷ cps) h =
      let start = from_first is_combining (cp ∷ cps) in
      let marks = before_first is_starter start in
      let rest = from_first is_starter start in
      let shorter = length-round cp cps in
      let later = canonical_sort_fuel-IsOrdering fuel rest (omega arith) in
      let sorted =
        run marks (std.sort code_point_lt marks) rest _ (before_first-All is_starter start)
          (from_first-StartsWithStarter start) (law.sort-perm code_point_lt marks)
          (law.sort-IsSorted _ code_point_lt marks code_point_lt-IsStrictWeak (λ x m. tt)) later in
      let whole : before_first is_combining (cp ∷ cps) ++ (marks ++ rest) ≡ cp ∷ cps =
        ap (◌++◌ (before_first is_combining (cp ∷ cps))) (before_first-from_first is_starter start)
        ∙ before_first-from_first is_combining (cp ∷ cps) in
      subst (λ all. IsOrdering all (canonical_sort_fuel std (suc fuel) (cp ∷ cps))) whole
        (starters-IsOrdering (before_first is_combining (cp ∷ cps)) (marks ++ rest) _
          (before_first-All is_combining (cp ∷ cps)) sorted)

  -- Starters stay where they are, and each maximal run of other code points is sorted by combining
  -- class, with code points of equal class in any order; for lawful sorting algorithms.
  pub canonical_sort-IsOrdering : (cps : List CodePoint) → IsOrdering cps (canonical_sort std cps)
  unfolding canonical_sort
  canonical_sort-IsOrdering cps = canonical_sort_fuel-IsOrdering (length cps) cps (omega arith)
