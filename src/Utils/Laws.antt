-- ===== src/Utils/Laws.antt =====
-- What `PartialSort` keeps and drops, by any algorithms that the standard allows.
use mathlib.Core.List.{Perm, Permᴰ, mem-append_left}
use mathlib.Core.List.Perm
use mathlib.Core.Logic.{∥∥₁_elim}
use mathlib.Core.Path.{subst}
use native.Mathlib.Nat.{ℕ_set}
use ycmd_cpp.Base.{
  ℕ, suc, ◌≤◌, ◌≡◌, refl, ap, ◌∙◌, Bool, List, ◌++◌, arith, leb, ltb, if◌then◌else◌, Bool-cases,
  inl, inr, ◌&&◌, length, take, drop, max, ◌/◌, take-append-drop, length-take, take-length-append,
  drop-length-append,
}
use ycmd_cpp.Std.{Algorithms, IsLawful, IsStrictWeak, IsSorted, IsSplit, Within}
use ycmd_cpp.Utils.{max_elements, sort_first, partial_sort}

Permᴰ-length : {A : Type 0} {xs ys : List A} → Permᴰ xs ys → length xs ≡ length ys
Permᴰ-length Permᴰ.nil = refl
Permᴰ-length (Permᴰ.cons e p) = ap suc (Permᴰ-length p)
Permᴰ-length (Permᴰ.swap e f) = refl
Permᴰ-length (Permᴰ.trans p q) = Permᴰ-length p ∙ Permᴰ-length q

pub Perm-length : {A : Type 0} {xs ys : List A} → Perm xs ys → length xs ≡ length ys
Perm-length p = ∥∥₁_elim p (ℕ_set _ _) Permᴰ-length

module _ (std : Algorithms) (law : IsLawful std) {A : Type 0} (P : A → Type 0) (lt : A → A → Bool)
    (weak : IsStrictWeak P lt) where
  -- The first `k` elements are sorted, and no other is less than one of them.
  pub record IsPartlySorted (k : ℕ) (xs out : List A) : Type 0 where
    pub perm : Perm out xs
    pub sorted : IsSorted lt (take k out)
    pub split : IsSplit lt (take k out) (drop k out)

  resorted :
      (k : ℕ) (xs low low' high : List A)
      → length low' ≡ k
      → Perm low' low
      → IsSorted lt low'
      → IsSplit lt low high
      → Perm (low ++ high) xs
      → IsPartlySorted k xs (low' ++ high)
  resorted k xs low low' high size p s apart whole =
      subst (λ n. IsPartlySorted n xs (low' ++ high)) size
        (record {
          perm = Perm.trans (Perm.append_right high p) whole;
          sorted = rw (take-length-append low' high) s;
          split =
              rw (take-length-append low' high, drop-length-append low' high)
                (λ x y hx hy. apart x y ((Perm.mem_iff p).0 hx) hy);
        })

  nth_element-IsPartlySorted :
      (k : ℕ) (xs : List A)
      → k ≤ length xs
      → Within P xs
      → let all = std.nth_element lt k xs in
        IsPartlySorted k xs (std.sort lt (take k all) ++ drop k all)
  nth_element-IsPartlySorted k xs h within =
      let all = std.nth_element lt k xs in
      let all_perm = law.nth_element-perm lt k xs in
      let low_perm = law.sort-perm lt (take k all) in
      let whole : Perm (take k all ++ drop k all) xs = rw (take-append-drop k all) all_perm in
      resorted k xs (take k all) (std.sort lt (take k all)) (drop k all)
        (omega (arith, Perm-length low_perm, Perm-length all_perm, length-take k all)) low_perm
        (law.sort-IsSorted P lt (take k all) weak
          (λ x m. within x ((Perm.mem_iff whole).0 (mem-append_left (drop k all) m))))
        (law.nth_element-IsSplit P lt k xs weak within) whole

  sort_first-IsPartlySorted :
      (k : ℕ) (xs : List A)
      → k ≤ length xs
      → Within P xs
      → IsPartlySorted k xs (sort_first std lt k xs)
  unfolding sort_first
  sort_first-IsPartlySorted k xs h within = elim (Bool-cases (leb k (max 1024 (length xs / 64)))) [
    | inl few ↦
        rw (few, sort_first)
          (record {
            perm = law.partial_sort-perm lt k xs;
            sorted = law.partial_sort-IsSorted P lt k xs weak within;
            split = law.partial_sort-IsSplit P lt k xs weak within;
          })
    | inr many ↦ rw (many, sort_first) (nth_element-IsPartlySorted k xs h within)
  ]

  max_elements-le : (n : ℕ) (xs : List A) → max_elements std lt n xs ≤ length xs
  unfolding max_elements
  max_elements-le n xs = ground arith

  -- `PartialSort` keeps `n` elements, or all if `n` is 0 or more than there are. They are sorted,
  -- and with those that are dropped they are the given ones, none of the dropped being less than
  -- one that is kept; whichever of its two ways it takes.
  pub partial_sort_lem :
      (n : ℕ) (xs : List A)
      → Within P xs
      → (dropped : List A) × (length (partial_sort std lt n xs)
          ≡ (if ltb 0 n && leb n (length xs) then n else length xs))
        × Perm (partial_sort std lt n xs ++ dropped) xs
        × IsSorted lt (partial_sort std lt n xs)
        × IsSplit lt (partial_sort std lt n xs) dropped
  unfolding partial_sort
  partial_sort_lem n xs within =
      let k = max_elements std lt n xs in
      let h = max_elements-le n xs in
      let s = sort_first-IsPartlySorted k xs h within in
      let out = sort_first std lt k xs in
      (
        drop k out,
        length-take k out ∙ omega (arith, h, Perm-length s.perm),
        rw (take-append-drop k out) s.perm,
        s.sorted,
        s.split,
      )
