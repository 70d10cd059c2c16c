-- ===== src/Result/Subsequence/Laws.antt =====
-- The rolling rows against the common subsequences of two sequences.
use mathlib.Core.List.{append-nil}
use mathlib.Core.Path.{subst, subst₂}
use mathlib.Core.Bool.{false≢true}
use native.Mathlib.Numerals.{add-one}
use native.Mathlib.Decide.{dec_le}
use ycmd_cpp.Base.{
  ◌⊎◌, ℕ, suc, ◌+◌, ◌≤◌, ◌≡◌, refl, ap, sym, ◌∙◌, max, true, false, List, [], ◌∷◌, ◌++◌, arith, ltb,
  if◌then◌else◌, Bool-cases, inl, inr, length, bytes_eq_iff,
}
use ycmd_cpp.Character.{Character, equals_base}
use ycmd_cpp.Result.Subsequence.{
  fill_row, fill_rows, zeros, last_cell, longest_common_subsequence_length,
}

-- The two lists have a common subsequence of that many characters, compared by their bases.
pub data Common : List Character → List Character → ℕ → Type 0 where
  done : {cs ds : List Character} → Common cs ds 0
  both :
      {a b : Character} {cs ds : List Character} {n : ℕ}
      → equals_base a b ≡ true
      → Common cs ds n
      → Common (a ∷ cs) (b ∷ ds) (suc n)
  left : {a : Character} {cs ds : List Character} {n : ℕ} → Common cs ds n → Common (a ∷ cs) ds n
  right : {b : Character} {cs ds : List Character} {n : ℕ} → Common cs ds n → Common cs (b ∷ ds) n

Common-le : {cs ds : List Character} {n : ℕ} → Common cs ds n → n ≤ length cs
Common-le (done {cs = cs}) = omega arith
Common-le (both e c) = omega (arith, Common-le c)
Common-le (left c) = omega (arith, Common-le c)
Common-le (right c) = Common-le c

equals_base_symm : (a b : Character) → equals_base a b ≡ true → equals_base b a ≡ true
unfolding equals_base
equals_base_symm a b e = (bytes_eq_iff b.base a.base).1 (sym ((bytes_eq_iff a.base b.base).0 e))

Common-symm : {cs ds : List Character} {n : ℕ} → Common cs ds n → Common ds cs n
Common-symm done = done
Common-symm (both {a = a} {b = b} e c) = both (equals_base_symm a b e) (Common-symm c)
Common-symm (left c) = right (Common-symm c)
Common-symm (right c) = left (Common-symm c)

-- The recursive specification, on lists that are read from their ends.
lcs : List Character → List Character → ℕ
lcs [] ds = 0
lcs (a ∷ cs) [] = 0
lcs (a ∷ cs) (b ∷ ds) =
    let hit = lcs cs ds + 1 in
    let miss = max (lcs (a ∷ cs) ds) (lcs cs (b ∷ ds)) in if equals_base a b then hit else miss

lcs_nil_right : (cs : List Character) → lcs cs [] ≡ 0
unfolding lcs
lcs_nil_right [] = refl
lcs_nil_right (a ∷ cs) = refl

-- The row of the table for `cs`, from the cell of `ds` on.
cells : List Character → List Character → List Character → List ℕ
cells cs ds [] = lcs cs ds ∷ []
cells cs ds (s ∷ shorter) = lcs cs ds ∷ cells cs (s ∷ ds) shorter

fill_row-cells :
    (c : Character) (cs ds shorter : List Character)
    → lcs (c ∷ cs) ds ∷ fill_row c shorter (cells cs ds shorter) (lcs (c ∷ cs) ds)
      ≡ cells (c ∷ cs) ds shorter
unfolding fill_row cells
fill_row-cells c cs ds [] = refl
fill_row-cells c cs ds (s ∷ []) = unfold lcs in ground arith
fill_row-cells c cs ds (s ∷ s' ∷ shorter) =
    let step : (if equals_base c s then lcs cs ds + 1 else max (lcs (c ∷ cs) ds) (lcs cs (s ∷ ds)))
        ≡ lcs (c ∷ cs) (s ∷ ds) =
      unfold lcs in refl in
    ap (◌∷◌ (lcs (c ∷ cs) ds)) (rw step (fill_row-cells c cs (s ∷ ds) (s' ∷ shorter)))

rev : List Character → List Character → List Character
rev [] acc = acc
rev (x ∷ xs) acc = rev xs (x ∷ acc)

fill_rows-cells :
    (longer shorter cs : List Character)
    → fill_rows longer shorter (cells cs [] shorter) ≡ cells (rev longer cs) [] shorter
unfolding fill_rows rev
fill_rows-cells [] shorter cs = refl
fill_rows-cells (c ∷ longer) shorter cs =
    let row : 0 ∷ fill_row c shorter (cells cs [] shorter) 0 ≡ cells (c ∷ cs) [] shorter =
      unfold lcs in fill_row-cells c cs [] shorter in
    rw row (fill_rows-cells longer shorter (c ∷ cs))

zeros-cells : (ds shorter : List Character) → zeros (suc (length shorter)) ≡ cells [] ds shorter
unfolding zeros cells lcs
zeros-cells ds [] = refl
zeros-cells ds (s ∷ shorter) = ap (◌∷◌ 0) (zeros-cells (s ∷ ds) shorter)

last_cell-cells :
    (cs ds shorter : List Character) → last_cell (cells cs ds shorter) ≡ lcs cs (rev shorter ds)
unfolding last_cell cells rev
last_cell-cells cs ds [] = refl
last_cell-cells cs ds (s ∷ []) = refl
last_cell-cells cs ds (s ∷ s' ∷ shorter) = last_cell-cells cs (s ∷ ds) (s' ∷ shorter)

table-lcs :
    (longer shorter : List Character)
    → last_cell (fill_rows longer shorter (zeros (suc (length shorter))))
      ≡ lcs (rev longer []) (rev shorter [])
table-lcs longer shorter =
    rw (zeros-cells [] shorter, fill_rows-cells longer shorter [])
      (last_cell-cells (rev longer []) [] shorter)

-- What remains of a common subsequence when the second list loses its head.
Common-drop :
    {cs : List Character} {b : Character} {ds : List Character} {n : ℕ}
    → Common cs (b ∷ ds) n
    → (m : ℕ) × (n ≤ suc m) × Common cs ds m
Common-drop done = (0, omega arith, done)
Common-drop (both {n = n} e c) = (n, omega arith, left c)
Common-drop (left c) = let (m, h, d) = Common-drop c in (m, h, left d)
Common-drop (right {n = n} c) = (n, omega arith, c)

Common-max :
    {cs ds : List Character} {n m : ℕ} → Common cs ds n → Common cs ds m → Common cs ds (max n m)
Common-max {n = n} {m = m} c d = elim (dec_le n m) [
  | yes h ↦ subst (Common _ _) (omega arith) d
  | no h ↦ subst (Common _ _) (omega arith) c
]

Common-lcs : (cs ds : List Character) → Common cs ds (lcs cs ds)
unfolding lcs
Common-lcs [] ds = done
Common-lcs (a ∷ cs) [] = done
Common-lcs (a ∷ cs) (b ∷ ds) = elim (Bool-cases (equals_base a b)) [
  | inl e ↦ rw (e, add-one) (both e (Common-lcs cs ds))
  | inr e ↦ rw e (Common-max (right (Common-lcs (a ∷ cs) ds)) (left (Common-lcs cs (b ∷ ds))))
]

-- The heads of both lists lost: at most one character of the subsequence goes.
Common-heads :
    {a b : Character} {cs ds : List Character} {n : ℕ}
    → Common (a ∷ cs) (b ∷ ds) n
    → (m : ℕ) × (n ≤ suc m) × Common cs ds m
Common-heads done = (0, omega arith, done)
Common-heads (both {n = n} e c) = (n, omega arith, c)
Common-heads (left c) = Common-drop c
Common-heads (right c) = let (m, h, d) = Common-drop (Common-symm c) in (m, h, Common-symm d)

-- Where the heads differ, one of the lists does without its head.
Common-differ :
    {a b : Character} {cs ds : List Character} {n : ℕ}
    → equals_base a b ≡ false
    → Common (a ∷ cs) (b ∷ ds) n
    → Common (a ∷ cs) ds n ⊎ Common cs (b ∷ ds) n
Common-differ f done = inl done
Common-differ f (both e c) = absurd (false≢true (sym f ∙ e))
Common-differ f (left c) = inr c
Common-differ f (right c) = inl c

lcs-max : (cs ds : List Character) (n : ℕ) → Common cs ds n → n ≤ lcs cs ds
unfolding lcs
lcs-max [] ds n c = Common-le c
lcs-max (a ∷ cs) [] n c = Common-le (Common-symm c)
lcs-max (a ∷ cs) (b ∷ ds) n c = elim (Bool-cases (equals_base a b)) [
  | inl e ↦ let (m, h, d) = Common-heads c in rw e (omega (arith, h, lcs-max cs ds m d))
  | inr e ↦ elim (Common-differ e c) [
    | inl d ↦ rw e (omega (arith, lcs-max (a ∷ cs) ds n d))
    | inr d ↦ rw e (omega (arith, lcs-max cs (b ∷ ds) n d))
  ]
]

rev-Common_left :
    (cs : List Character) {us vs : List Character} {m : ℕ}
    → Common us vs m
    → Common (rev cs us) vs m
unfolding rev
rev-Common_left [] c = c
rev-Common_left (a ∷ cs) c = rev-Common_left cs (left c)

rev-Common :
    {cs ds us vs : List Character} {n m : ℕ}
    → Common cs ds n
    → Common us vs m
    → Common (rev cs us) (rev ds vs) (n + m)
unfolding rev
rev-Common {m = m} (done {cs = cs} {ds = ds}) c =
    subst (Common _ _) (omega arith)
      (rev-Common_left cs (Common-symm (rev-Common_left ds (Common-symm c))))
rev-Common {m = m} (both {n = n} e d) c = subst (Common _ _) (omega arith) (rev-Common d (both e c))
rev-Common (left d) c = rev-Common d (left c)
rev-Common (right d) c = rev-Common d (right c)

rev-rev : (xs acc ys : List Character) → rev (rev xs acc) ys ≡ rev acc (xs ++ ys)
unfolding rev
rev-rev [] acc ys = refl
rev-rev (x ∷ xs) acc ys = rev-rev xs (x ∷ acc) ys

-- The common subsequences of two lists are those of the two read backwards.
reversed-Common :
    {cs ds : List Character} {n : ℕ} → Common cs ds n → Common (rev cs []) (rev ds []) n
reversed-Common {n = n} c = subst (Common _ _) (omega arith) (rev-Common c done)

unreversed-Common :
    (cs ds : List Character) (n : ℕ) → Common (rev cs []) (rev ds []) n → Common cs ds n
unfolding rev
unreversed-Common cs ds n c =
    subst₂ (λ us vs. Common us vs n) (rev-rev cs [] [] ∙ append-nil cs)
      (rev-rev ds [] [] ∙ append-nil ds) (reversed-Common c)

table_is_longest :
    (longer shorter : List Character)
    → let len = last_cell (fill_rows longer shorter (zeros (suc (length shorter)))) in
      Common longer shorter len × ((n : ℕ) → Common longer shorter n → n ≤ len)
table_is_longest longer shorter = rw (table-lcs longer shorter) (
  unreversed-Common longer shorter _ (Common-lcs (rev longer []) (rev shorter [])),
  λ n c. lcs-max (rev longer []) (rev shorter []) n (reversed-Common c),
)

-- The rolling-row table gives the length of a longest common subsequence of the two character
-- sequences, compared by their bases: one of that length exists, and none is longer, whichever of
-- the sequences is the shorter.
pub longest_common_subsequence_length_lem :
    (first second : List Character)
    → Common first second (longest_common_subsequence_length first second)
      × ((n : ℕ) → Common first second n → n ≤ longest_common_subsequence_length first second)
unfolding longest_common_subsequence_length
longest_common_subsequence_length_lem first second =
    elim (Bool-cases (ltb (length second) (length first))) [
      | inl e ↦ rw e (table_is_longest first second)
      | inr e ↦
          let (some_common, most) = table_is_longest second first in
          rw e (Common-symm some_common, λ n c. most n (Common-symm c))
    ]

pub longest_common_subsequence_length-le :
    (first second : List Character) → longest_common_subsequence_length first second ≤ length first
longest_common_subsequence_length-le first second =
    Common-le (longest_common_subsequence_length_lem first second).0
