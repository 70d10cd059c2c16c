-- ===== src/Std/Instance.antt =====
-- Algorithms that meet the standard's guarantees: insertion sort, for all three.
use mathlib.Core.List.{Perm, Mem, mem-cons, not-mem-nil, mem-append_left, mem-append_right}
use mathlib.Core.List.Perm
use mathlib.Core.Logic.Or
use mathlib.Core.Bool.{false≢true, Bool-set}
use mathlib.Core.Path.{subst}
use ycmd_cpp.Base.{
  ℕ, zero, suc, ◌≡◌, refl, sym, ◌∙◌, Bool, true, false, List, [], ◌∷◌, if◌then◌else◌, Bool-cases,
  inl, inr, take, drop, take-append-drop,
}
use ycmd_cpp.Std.{Algorithms, IsLawful, IsStrictWeak, IsSorted, IsSplit, Within}

module _ {A : Type 0} (lt : A → A → Bool) where
  unfoldable pub insert : A → List A → List A
  insert x [] = x ∷ []
  insert x (y ∷ ys) = let rest = insert x ys in if lt y x then y ∷ rest else x ∷ y ∷ ys

  unfoldable pub insertion_sort : List A → List A
  unfolding insert
  insertion_sort [] = []
  insertion_sort (x ∷ xs) = insert x (insertion_sort xs)

  insert-perm : (x : A) (ys : List A) → Perm (insert x ys) (x ∷ ys)
  unfolding insert
  insert-perm x [] = Perm.rfl
  insert-perm x (y ∷ ys) = elim (Bool-cases (lt y x)) [
    | inl e ↦ rw e (Perm.trans (Perm.cons y (insert-perm x ys)) (Perm.swap x y ys))
    | inr e ↦ rw e Perm.rfl
  ]

  pub insertion_sort-perm : (xs : List A) → Perm (insertion_sort xs) xs
  unfolding insertion_sort
  insertion_sort-perm [] = Perm.rfl
  insertion_sort-perm (x ∷ xs) =
      Perm.trans (insert-perm x (insertion_sort xs)) (Perm.cons x (insertion_sort-perm xs))

  module _ (P : A → Type 0) (weak : IsStrictWeak P lt) where
    asym : (x y : A) → P x → P y → lt y x ≡ true → lt x y ≡ false
    asym x y p q e = elim (Bool-cases (lt x y)) [
      | inl f ↦ absurd (false≢true (sym (weak.irrefl x p) ∙ weak.trans x y x p q p f e))
      | inr f ↦ f
    ]

    insert-IsSorted :
        (x : A) (ys : List A) → P x → Within P ys → IsSorted lt ys → IsSorted lt (insert x ys)
    unfolding insert
    insert-IsSorted x [] p within s = (λ z m. absurd (not-mem-nil m), tt)
    insert-IsSorted x (y ∷ ys) p within s =
        let q = within y (mem-cons.1 (Or.inl refl)) in
        let inner = λ (z : A) (m : Mem z ys). within z (mem-cons.1 (Or.inr m)) in
        elim (Bool-cases (lt y x)) [
          | inl e ↦ rw e (
            λ z m.
                Or.elim (Bool-set _ _) (mem-cons.0 ((Perm.mem_iff (insert-perm x ys)).0 m))
                  (λ same. rw same (asym x y p q e)) (λ later. s.0 z later),
            insert-IsSorted x ys p inner s.1,
          )
          | inr e ↦ rw e (
            λ z m.
                Or.elim (Bool-set _ _) (mem-cons.0 m) (λ same. rw same e)
                  (λ later. weak.incomparable_trans z y x (inner z later) q p (s.0 z later) e),
            s,
          )
        ]

    pub insertion_sort-IsSorted : (xs : List A) → Within P xs → IsSorted lt (insertion_sort xs)
    unfolding insertion_sort
    insertion_sort-IsSorted [] within = tt
    insertion_sort-IsSorted (x ∷ xs) within =
        let inner = λ (z : A) (m : Mem z xs). within z (mem-cons.1 (Or.inr m)) in
        insert-IsSorted x (insertion_sort xs) (within x (mem-cons.1 (Or.inl refl)))
          (λ z m. inner z ((Perm.mem_iff (insertion_sort-perm xs)).0 m))
          (insertion_sort-IsSorted xs inner)

  IsSorted-take : (k : ℕ) (xs : List A) → IsSorted lt xs → IsSorted lt (take k xs)
  IsSorted-take zero xs s = tt
  IsSorted-take (suc k) [] s = tt
  IsSorted-take (suc k) (x ∷ xs) s = (
    λ z m. s.0 z (subst (Mem z) (take-append-drop k xs) (mem-append_left (drop k xs) m)),
    IsSorted-take k xs s.1,
  )

  IsSorted-IsSplit : (k : ℕ) (xs : List A) → IsSorted lt xs → IsSplit lt (take k xs) (drop k xs)
  IsSorted-IsSplit zero xs s = λ x y hx hy. absurd (not-mem-nil hx)
  IsSorted-IsSplit (suc k) [] s = λ x y hx hy. absurd (not-mem-nil hx)
  IsSorted-IsSplit (suc k) (z ∷ xs) s = λ x y hx hy.
      Or.elim (Bool-set _ _) (mem-cons.0 hx)
        (λ same.
          rw same (s.0 y (subst (Mem y) (take-append-drop k xs) (mem-append_right (take k xs) hy))))
        (λ later. IsSorted-IsSplit k xs s.1 x y later hy)

abbrev pub insertion_algorithms : Algorithms
insertion_algorithms = record {
  sort = λ lt xs. insertion_sort lt xs;
  partial_sort = λ lt k xs. insertion_sort lt xs;
  nth_element = λ lt k xs. insertion_sort lt xs;
}

pub insertion_algorithms-IsLawful : IsLawful insertion_algorithms
insertion_algorithms-IsLawful = record {
  sort-perm = λ lt xs. insertion_sort-perm lt xs;
  sort-IsSorted = λ P lt xs weak within. insertion_sort-IsSorted lt P weak xs within;
  partial_sort-perm = λ lt k xs. insertion_sort-perm lt xs;
  partial_sort-IsSorted =
      λ P lt k xs weak within. IsSorted-take lt k _ (insertion_sort-IsSorted lt P weak xs within);
  partial_sort-IsSplit = λ P lt k xs weak within.
      IsSorted-IsSplit lt k _ (insertion_sort-IsSorted lt P weak xs within);
  nth_element-perm = λ lt k xs. insertion_sort-perm lt xs;
  nth_element-IsSplit = λ P lt k xs weak within.
      IsSorted-IsSplit lt k _ (insertion_sort-IsSorted lt P weak xs within);
}
