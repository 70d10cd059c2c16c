-- ===== src/Std.antt =====
-- The sorting algorithms of `<algorithm>`, as the C++ standard specifies them: it says which
-- results are allowed and not which of those they give, so the algorithms are parameters.
pub mod Instance
use mathlib.Core.List.{Perm, Mem}
use ycmd_cpp.Base.{ℕ, ◌≡◌, Bool, true, false, List, [], ◌∷◌, take, drop}

-- What a comparison must be, on the values that are compared, for a sort to be defined: a strict
-- weak order.
pub record IsStrictWeak {ℓ κ} {A : Type ℓ} (P : A → Type κ) (lt : A → A → Bool) : Type (ℓ ⊔ κ) where
  pub irrefl : (a : A) → P a → lt a a ≡ false
  pub trans : (a b c : A) → P a → P b → P c → lt a b ≡ true → lt b c ≡ true → lt a c ≡ true
  pub incomparable_trans :
      (a b c : A) → P a → P b → P c → lt a b ≡ false → lt b c ≡ false → lt a c ≡ false

-- Every element satisfies the predicate.
abbrev pub Within {ℓ κ} : {A : Type ℓ} → (A → Type κ) → List A → Type (ℓ ⊔ κ)
Within {A} P xs = (x : A) → Mem x xs → P x

-- No element of the second list is less than one of the first.
abbrev pub IsSplit {ℓ} : {A : Type ℓ} → (A → A → Bool) → List A → List A → Type ℓ
IsSplit {A} lt xs ys = (x y : A) → Mem x xs → Mem y ys → lt y x ≡ false

-- No element stands before one that is less.
abbrev pub IsSorted {ℓ} : {A : Type ℓ} → (A → A → Bool) → List A → Type ℓ
IsSorted lt [] = Unit
IsSorted {A} lt (x ∷ xs) = ((y : A) → Mem y xs → lt y x ≡ false) × IsSorted lt xs

pub record Algorithms : Type 1 where
  -- `std::sort( begin, end )`.
  pub sort : {A : Type 0} → (A → A → Bool) → List A → List A
  -- `std::partial_sort( begin, begin + k, end )`.
  pub partial_sort : {A : Type 0} → (A → A → Bool) → ℕ → List A → List A
  -- `std::nth_element( begin, begin + k, end )`.
  pub nth_element : {A : Type 0} → (A → A → Bool) → ℕ → List A → List A

-- The standard's guarantees.
pub record IsLawful (std : Algorithms) : Type 1 where
  pub sort-perm : {A : Type 0} (lt : A → A → Bool) (xs : List A) → Perm (std.sort lt xs) xs
  pub sort-IsSorted :
      {A : Type 0} (P : A → Type 0) (lt : A → A → Bool) (xs : List A)
      → IsStrictWeak P lt
      → Within P xs
      → IsSorted lt (std.sort lt xs)
  pub partial_sort-perm :
      {A : Type 0} (lt : A → A → Bool) (k : ℕ) (xs : List A) → Perm (std.partial_sort lt k xs) xs
  pub partial_sort-IsSorted :
      {A : Type 0} (P : A → Type 0) (lt : A → A → Bool) (k : ℕ) (xs : List A)
      → IsStrictWeak P lt
      → Within P xs
      → IsSorted lt (take k (std.partial_sort lt k xs))
  pub partial_sort-IsSplit :
      {A : Type 0} (P : A → Type 0) (lt : A → A → Bool) (k : ℕ) (xs : List A)
      → IsStrictWeak P lt
      → Within P xs
      → IsSplit lt (take k (std.partial_sort lt k xs)) (drop k (std.partial_sort lt k xs))
  pub nth_element-perm :
      {A : Type 0} (lt : A → A → Bool) (k : ℕ) (xs : List A) → Perm (std.nth_element lt k xs) xs
  pub nth_element-IsSplit :
      {A : Type 0} (P : A → Type 0) (lt : A → A → Bool) (k : ℕ) (xs : List A)
      → IsStrictWeak P lt
      → Within P xs
      → IsSplit lt (take k (std.nth_element lt k xs)) (drop k (std.nth_element lt k xs))
