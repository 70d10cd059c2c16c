-- ===== src/Query/Embedding.antt =====
-- A query as a subsequence of a candidate: the positions of the candidate that the query's
-- characters are matched to, in order. An independent description of what the loop looks for.
use ycmd_cpp.Base.{ℕ, suc, ◌+◌, ◌≤◌, ◌≡◌, refl, true, List, [], ◌∷◌, arith, length}
use ycmd_cpp.Character.{Character, matches_smart}

-- `Embeds k qs cs ps`: the characters `qs` match characters of `cs`, whose first has the index
-- `k`, at the strictly increasing positions `ps`.
pub data Embeds : ℕ → List Character → List Character → List ℕ → Type 0 where
  done : {k : ℕ} {cs : List Character} → Embeds k [] cs []
  hit :
      {k : ℕ} {q c : Character} {qs cs : List Character} {ps : List ℕ}
      → matches_smart q c ≡ true
      → Embeds (suc k) qs cs ps
      → Embeds k (q ∷ qs) (c ∷ cs) (k ∷ ps)
  skip :
      {k : ℕ} {c : Character} {qs cs : List Character} {ps : List ℕ}
      → Embeds (suc k) qs cs ps
      → Embeds k qs (c ∷ cs) ps

-- The query's characters match the first ones of the candidate, one by one.
pub data IsPrefix : List Character → List Character → Type 0 where
  none_left : {cs : List Character} → IsPrefix [] cs
  next :
      {q c : Character} {qs cs : List Character}
      → matches_smart q c ≡ true
      → IsPrefix qs cs
      → IsPrefix (q ∷ qs) (c ∷ cs)

unfoldable pub sum : List ℕ → ℕ
sum [] = 0
sum (p ∷ ps) = p + sum ps

-- The first of a nonempty query's positions.
pub Embeds-first :
    {k p : ℕ} {qs cs : List Character} {ps : List ℕ} → Embeds k qs cs (p ∷ ps) → k ≤ p
Embeds-first (hit e m) = omega arith
Embeds-first (skip m) = omega (arith, Embeds-first m)

-- Without its first character the query embeds behind the candidate's first character.
pub Embeds-tail :
    {k : ℕ} {q : Character} {qs cs : List Character} {ps : List ℕ}
    → Embeds k (q ∷ qs) cs ps
    → (p : ℕ) × (rest : List ℕ) × (ps ≡ p ∷ rest) × Embeds k qs cs rest
Embeds-tail (hit {k = k} {ps = ps} e m) = (k, ps, refl, skip m)
Embeds-tail (skip m) = let (p, rest, e, t) = Embeds-tail m in (p, rest, e, skip t)

pub Embeds-length :
    {k : ℕ} {qs cs : List Character} {ps : List ℕ} → Embeds k qs cs ps → length qs ≤ length cs
Embeds-length done = omega arith
Embeds-length (hit e m) = omega (arith, Embeds-length m)
Embeds-length (skip m) = omega (arith, Embeds-length m)
