-- ===== src/Query/Laws.antt =====
-- The greedy loop of `QueryMatchResult` against the embeddings of the query.
use native.Mathlib.Numerals.{add-one}
use mathlib.Core.Path.{subst}
use mathlib.Core.Bool.{false≢true}
use ycmd_cpp.Base.{
  ℕ, suc, ◌+◌, ◌≤◌, ◌≡◌, ◌≢◌, ◌↔◌, refl, sym, ap, ◌∙◌, Bool, true, false, Option, none, some, List,
  [], ◌∷◌, arith, ltb, length, Bool-cases, inl, inr,
}
use ycmd_cpp.Character.{Character, matches_smart}
use ycmd_cpp.Word.{Word}
use ycmd_cpp.Candidate.{Candidate}
use ycmd_cpp.Result.{Match, Result, no_match, matched, make_result, is_subsequence}
use ycmd_cpp.Result.Order.{IsFor, make_result-IsFor}
use ycmd_cpp.Query.{match_loop, loop_result, match_characters, query_match_result}
use ycmd_cpp.Query.Prefix.{match_loop_level}
use ycmd_cpp.Query.Embedding.{
  Embeds, done, hit, skip, IsPrefix, sum, Embeds-first, Embeds-tail, Embeds-length,
}

Embeds-behind :
    {k : ℕ} {q c : Character} {qs cs : List Character} {ps : List ℕ}
    → Embeds k (q ∷ qs) (c ∷ cs) ps
    → (p : ℕ) × (rest : List ℕ) × (ps ≡ p ∷ rest) × (k ≤ p) × Embeds (suc k) qs cs rest
Embeds-behind (hit {k = k} {ps = ps} e m) = (k, ps, refl, omega arith, m)
Embeds-behind (skip m) =
    let (p, rest, e, t) = Embeds-tail m in
    (p, rest, e, omega (arith, Embeds-first (subst (Embeds _ _ _) e m)), t)

-- Of all embeddings the one at `ps` has the least sum of positions.
abbrev pub IsLeast : ℕ → List Character → List Character → List ℕ → Type 0
IsLeast k qs cs ps = (other : List ℕ) → Embeds k qs cs other → sum ps ≤ sum other

-- What the loop gives: nothing, as there is no embedding, or the least embedding's sum.
data Outcome (k : ℕ) (qs cs : List Character) (s : ℕ) : Option (ℕ × Bool) → Type 0 where
  missing : ((ps : List ℕ) → ¬ Embeds k qs cs ps) → Outcome k qs cs s none
  found :
      {flag : Bool} {total : ℕ} (ps : List ℕ)
      → Embeds k qs cs ps
      → IsLeast k qs cs ps
      → total ≡ s + sum ps
      → Outcome k qs cs s (some (total, flag))

Outcome-hit :
    {k s : ℕ} {q c : Character} {qs cs : List Character} {r : Option (ℕ × Bool)}
    → matches_smart q c ≡ true
    → Outcome (suc k) qs cs (s + k) r
    → Outcome k (q ∷ qs) (c ∷ cs) s r
unfolding sum
Outcome-hit e (missing no_other) =
    missing (λ ps m. let (p, rest, _, _, t) = Embeds-behind m in no_other rest t)
Outcome-hit {k} {s} e (found ps m least total) =
    found (k ∷ ps) (hit e m)
      (λ other o. let (p, rest, eo, le, t) = Embeds-behind o in rw eo (omega (arith, least rest t)))
      (omega arith)

-- An embedding passes a character that the query's first one does not match.
past :
    {k : ℕ} {q c : Character} {qs cs : List Character} {ps : List ℕ}
    → matches_smart q c ≡ false
    → Embeds k (q ∷ qs) (c ∷ cs) ps
    → Embeds (suc k) (q ∷ qs) cs ps
past e (hit f m) = absurd (false≢true (sym e ∙ f))
past e (skip m) = m

Outcome-skip :
    {k s : ℕ} {q c : Character} {qs cs : List Character} {r : Option (ℕ × Bool)}
    → matches_smart q c ≡ false
    → Outcome (suc k) (q ∷ qs) cs s r
    → Outcome k (q ∷ qs) (c ∷ cs) s r
Outcome-skip e (missing no_other) = missing (λ ps m. no_other ps (past e m))
Outcome-skip e (found ps m least total) =
    found ps (skip m) (λ other o. least other (past e o)) total

match_loop-Outcome :
    (cs : List Character) (q : Character) (qs : List Character) (k j s : ℕ)
    → Outcome k (q ∷ qs) cs s (match_loop cs q qs k j s)
unfolding match_loop sum
match_loop-Outcome [] q qs k j s = missing (λ ps m. absurd (omega (arith, Embeds-length m)))
match_loop-Outcome (c ∷ cs) q [] k j s = elim (Bool-cases (matches_smart q c)) [
  | inl e ↦
      rw (e, match_loop) (Outcome-hit e (found [] done (λ other o. omega arith) (omega arith)))
  | inr e ↦ rw (e, match_loop, add-one) (Outcome-skip e (match_loop-Outcome cs q [] (suc k) j s))
]
match_loop-Outcome (c ∷ cs) q (q' ∷ qs) k j s = elim (Bool-cases (matches_smart q c)) [
  | inl e ↦
      rw (e, match_loop, add-one)
        (Outcome-hit e (match_loop-Outcome cs q' qs (suc k) (j + 1) (s + k)))
  | inr e ↦
      rw (e, match_loop, add-one) (Outcome-skip e (match_loop-Outcome cs q (q' ∷ qs) (suc k) j s))
]

pub make_result-sum :
    (candidate : Candidate) (query : Word) (sum : ℕ) (prefix : Bool)
    → ((make_result candidate query sum prefix).char_match_index_sum ≡ sum)
      × ((make_result candidate query sum prefix).query_is_candidate_prefix ≡ prefix)
unfolding make_result
make_result-sum candidate query sum prefix = ground arith

-- What a result says, for the query's characters.
record Describes (qs cs : List Character) (m : Match) : Type 0 where
  positions : List ℕ
  embeds : Embeds 0 qs cs positions
  least : IsLeast 0 qs cs positions
  index_sum : m.char_match_index_sum ≡ sum positions
  prefix : (m.query_is_candidate_prefix ≡ true) ↔ ((qs ≢ []) × IsPrefix qs cs)

data Answer (qs cs : List Character) : Result → Type 0 where
  refused : ((ps : List ℕ) → ¬ Embeds 0 qs cs ps) → Answer qs cs no_match
  given : {m : Match} → Describes qs cs m → Answer qs cs (matched m)

loop_result-Answer :
    (candidate : Candidate) (query : Word) (q : Character) (qs cs : List Character)
    (r : Option (ℕ × Bool))
    → Outcome 0 (q ∷ qs) cs 0 r
    → r ≡ match_loop cs q qs 0 0 0
    → Answer (q ∷ qs) cs (loop_result candidate query r)
unfolding loop_result
loop_result-Answer candidate query q qs cs r (missing no_other) e = refused no_other
loop_result-Answer candidate query q qs cs r (found {flag = flag} {total = total} ps m least t) e =
    let (same_sum, same_flag) = make_result-sum candidate query total flag in
    let (to, from) = match_loop_level cs q qs 0 0 (sym e) in
    given (record {
      positions = ps;
      embeds = m;
      least = least;
      index_sum = same_sum ∙ omega arith;
      prefix = (λ on. (λ n. cc, to (sym same_flag ∙ on)), λ h. same_flag ∙ from h.1);
    })

match_characters-Answer :
    (candidate : Candidate) (query : Word) (qs : List Character)
    → query.characters ≡ qs
    → Answer qs candidate.characters (match_characters candidate query qs)
unfolding match_characters sum
match_characters-Answer candidate query [] e =
    let (same_sum, same_flag) = make_result-sum candidate query 0 false in
    given (record {
      positions = [];
      embeds = done;
      least = λ other m. omega arith;
      index_sum = same_sum;
      prefix = (λ on. absurd (false≢true (sym same_flag ∙ on)), λ h. absurd (h.0 refl));
    })
match_characters-Answer candidate query (q ∷ qs) e =
    elim (Bool-cases (ltb (length candidate.characters) (length query.characters))) [
      | inl short ↦
          rw (short, match_characters)
            (refused (λ ps m.
              absurd (ground (arith, Embeds-length m, ap (λ (l : List Character). length l) e))))
      | inr fits ↦
          rw (fits, match_characters)
            (loop_result-Answer candidate query q qs candidate.characters _
              (match_loop-Outcome candidate.characters q qs 0 0 0) refl)
    ]

query_match_result-Answer :
    (candidate : Candidate) (query : Word)
    → Answer query.characters candidate.characters (query_match_result candidate query)
unfolding query_match_result
query_match_result-Answer candidate query =
    match_characters-Answer candidate query query.characters refl

Answer-subsequence :
    {qs cs : List Character} {r : Result}
    → Answer qs cs r
    → (is_subsequence r ≡ true → (ps : List ℕ) × Embeds 0 qs cs ps)
      × ((ps : List ℕ) → Embeds 0 qs cs ps → is_subsequence r ≡ true)
unfolding is_subsequence
Answer-subsequence (refused no_other) = (λ e. cc, λ ps m. absurd (no_other ps m))
Answer-subsequence (given d) = (λ e. (d.positions, d.embeds), λ ps m. refl)

Answer-Describes :
    {qs cs : List Character} {r : Result}
    → Answer qs cs r
    → {m : Match} → r ≡ matched m
    → Describes qs cs m
Answer-Describes (refused no_other) e = cc
Answer-Describes (given d) e = ground (arith, e)

-- A candidate is a match exactly when the query's characters can be found in it in order, each by
-- `MatchesSmart`: the greedy loop and the test of the lengths miss no match and invent none.
pub is_subsequence-query_match_result :
    (candidate : Candidate) (query : Word)
    → (is_subsequence (query_match_result candidate query) ≡ true
        → (ps : List ℕ) × Embeds 0 query.characters candidate.characters ps)
      × ((ps : List ℕ)
          → Embeds 0 query.characters candidate.characters ps
          → is_subsequence (query_match_result candidate query) ≡ true)
is_subsequence-query_match_result candidate query =
    Answer-subsequence (query_match_result-Answer candidate query)

-- The index sum of a match is that of an embedding of the query, and no embedding has a smaller
-- one.
pub query_match_result-IsLeast :
    (candidate : Candidate) (query : Word) (m : Match)
    → query_match_result candidate query ≡ matched m
    → (ps : List ℕ) × Embeds 0 query.characters candidate.characters ps
      × (m.char_match_index_sum ≡ sum ps)
      × IsLeast 0 query.characters candidate.characters ps
query_match_result-IsLeast candidate query m e =
    let d = Answer-Describes (query_match_result-Answer candidate query) e in
    (d.positions, d.embeds, d.index_sum, d.least)

-- A match is marked as having the query for a prefix exactly when the query is not empty and its
-- characters match the candidate's first ones one by one.
pub query_match_result_prefix :
    (candidate : Candidate) (query : Word) (m : Match)
    → query_match_result candidate query ≡ matched m
    → (m.query_is_candidate_prefix ≡ true)
      ↔ ((query.characters ≢ []) × IsPrefix query.characters candidate.characters)
query_match_result_prefix candidate query m e =
    (Answer-Describes (query_match_result-Answer candidate query) e).prefix

data Ranked (n : ℕ) : Result → Type 0 where
  nothing : Ranked n no_match
  result : {m : Match} → IsFor n m → Ranked n (matched m)

Ranked-IsFor : {n : ℕ} {r : Result} → Ranked n r → (m : Match) → r ≡ matched m → IsFor n m
Ranked-IsFor nothing m e = cc
Ranked-IsFor {n = n} (result {m = m'} p) m e = subst (IsFor n) (ground (arith, e)) p

loop_result-Ranked :
    (candidate : Candidate) (query : Word) (r : Option (ℕ × Bool))
    → Ranked (length query.characters) (loop_result candidate query r)
unfolding loop_result
loop_result-Ranked candidate query none = nothing
loop_result-Ranked candidate query (some (index_sum, prefix)) =
    result (make_result-IsFor candidate query index_sum prefix)

match_characters-Ranked :
    (candidate : Candidate) (query : Word) (qs : List Character)
    → Ranked (length query.characters) (match_characters candidate query qs)
unfolding match_characters
match_characters-Ranked candidate query [] = result (make_result-IsFor candidate query 0 false)
match_characters-Ranked candidate query (q ∷ qs) =
    elim (Bool-cases (ltb (length candidate.characters) (length query.characters))) [
      | inl short ↦ rw (short, match_characters) nothing
      | inr fits ↦ rw (fits, match_characters) (loop_result-Ranked candidate query _)
    ]

-- The results of a query are results for it, in the sense of the ranking.
pub query_match_result-IsFor :
    (candidate : Candidate) (query : Word) (m : Match)
    → query_match_result candidate query ≡ matched m
    → IsFor (length query.characters) m
unfolding query_match_result
query_match_result-IsFor candidate query m e =
    Ranked-IsFor (match_characters-Ranked candidate query query.characters) m e
