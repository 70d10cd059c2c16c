-- ===== src/Query/Bounds.antt =====
-- The size of the index sum of a match, which the source adds up in a `size_t`.
use ycmd_cpp.Base.{ℕ, suc, ◌+◌, ◌*◌, ◌^◌, ◌≤◌, ◌<◌, ◌≡◌, List, arith, length}
use ycmd_cpp.Character.{Character}
use ycmd_cpp.Word.{Word}
use ycmd_cpp.Candidate.{Candidate}
use ycmd_cpp.Result.{Match, matched}
use ycmd_cpp.Query.{query_match_result}
use ycmd_cpp.Query.Embedding.{Embeds, done, hit, skip, sum, Embeds-length}
use ycmd_cpp.Query.Laws.{query_match_result-IsLeast}

least_step :
    (k q s : ℕ)
    → 2 * (k + 1) * q + q * q ≤ 2 * s + q
    → 2 * k * suc q + suc q * suc q ≤ 2 * (k + s) + suc q
least_step k q s h = grind arith

-- Positions from `k` on are no smaller than the first ones from there.
Embeds-least :
    {k : ℕ} {qs cs : List Character} {ps : List ℕ}
    → Embeds k qs cs ps
    → 2 * k * length qs + length qs * length qs ≤ 2 * sum ps + length qs
unfolding sum
Embeds-least done = omega arith
Embeds-least (hit {k = k} {qs = qs} {ps = ps} e m) =
    let h = Embeds-least m in least_step k (length qs) (sum ps) (grind (arith, h))
Embeds-least (skip {k = k} {qs = qs} m) = let h = Embeds-least m in grind (arith, h)

greatest_step :
    (k q c s : ℕ)
    → q ≤ c
    → 2 * s + q * q + q ≤ 2 * q * (k + 1 + c)
    → 2 * (k + s) + suc q * suc q + suc q ≤ 2 * suc q * (k + suc c)
greatest_step k q c s h i = grind arith

-- They are no larger than the last ones.
Embeds-greatest :
    {k : ℕ} {qs cs : List Character} {ps : List ℕ}
    → Embeds k qs cs ps
    → 2 * sum ps + length qs * length qs + length qs ≤ 2 * length qs * (k + length cs)
unfolding sum
Embeds-greatest done = omega arith
Embeds-greatest (hit {k = k} {qs = qs} {cs = cs} {ps = ps} e m) =
    let h = Embeds-greatest m in
    let fits = Embeds-length m in
    greatest_step k (length qs) (length cs) (sum ps) fits (grind (arith, h))
Embeds-greatest (skip {k = k} {qs = qs} {cs = cs} m) = let h = Embeds-greatest m in grind (arith, h)

square-lt : (n : ℕ) → n < 2 ^ 32 → n * n < 2 ^ 64
square-lt n h = grind arith

product-le : (m n s : ℕ) → m ≤ n → 2 * s + m * m + m ≤ 2 * m * n → s ≤ n * n
product-le m n s h k = grind arith

-- The index sum of a match of a query of `m` characters in a candidate of `n` lies between the sums
-- of the first and of the last `m` indices below `n`, both included. For a candidate of fewer than
-- 2 ^ 32 characters it fits into 64 bits.
pub query_match_result-index_sum :
    (candidate : Candidate) (query : Word) (match_ : Match)
    → query_match_result candidate query ≡ matched match_
    → (let m = length query.characters in
        let n = length candidate.characters in
        (m * m ≤ 2 * match_.char_match_index_sum + m)
        × (2 * match_.char_match_index_sum + m * m + m ≤ 2 * m * n)
        × (n < 2 ^ 32 → match_.char_match_index_sum < 2 ^ 64))
query_match_result-index_sum candidate query match_ e =
    let (ps, embeds, total, _) = query_match_result-IsLeast candidate query match_ e in
    let m = length query.characters in
    let n = length candidate.characters in
    let low = Embeds-least embeds in
    let high : 2 * sum ps + m * m + m ≤ 2 * m * n = grind (arith, Embeds-greatest embeds) in
    let fits = Embeds-length embeds in
    (
      omega (arith, low, total),
      rw total high,
      λ few. omega (arith, total, product-le m n (sum ps) fits high, square-lt n few),
    )
