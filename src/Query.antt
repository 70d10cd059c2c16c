-- ===== src/Query.antt =====
-- `Candidate::QueryMatchResult` of src/core/Candidate.cpp.
pub mod Embedding
pub mod Prefix
pub mod Laws
pub mod Bounds
use ycmd_cpp.Base.{
  ℕ, ◌+◌, Bool, true, false, Option, none, some, List, [], ◌∷◌, ltb, ◌==◌, if◌then◌else◌, length,
}
use ycmd_cpp.Character.{Character, matches_smart}
use ycmd_cpp.Word.{Word}
use ycmd_cpp.Candidate.{Candidate}
use ycmd_cpp.Result.{Result, no_match, matched, make_result}

-- The loop over the candidate's characters, at a query with the character `q` and then `qs` left:
-- the index sum, and whether the last two indices are equal.
unfoldable pub match_loop :
    List Character → Character → List Character → ℕ → ℕ → ℕ → Option (ℕ × Bool)
match_loop [] q qs candidate_index query_index index_sum = none
match_loop (c ∷ cs) q qs candidate_index query_index index_sum = elim (matches_smart q c) [
  | true ↦ elim qs [
    | [] ↦ some (index_sum + candidate_index, candidate_index == query_index)
    | q' ∷ qs' ↦
        match_loop cs q' qs' (candidate_index + 1) (query_index + 1) (index_sum + candidate_index)
  ]
  | false ↦ match_loop cs q qs (candidate_index + 1) query_index index_sum
]

-- The result for what the loop found.
unfoldable pub loop_result : Candidate → Word → Option (ℕ × Bool) → Result
loop_result candidate query none = no_match
loop_result candidate query (some (index_sum, prefix)) =
    matched (make_result candidate query index_sum prefix)

-- The part after the test for an empty query.
unfoldable pub match_characters : Candidate → Word → List Character → Result
unfolding match_loop loop_result
match_characters candidate query [] = matched (make_result candidate query 0 false)
match_characters candidate query (q ∷ qs) =
    if ltb (length candidate.characters) (length query.characters)
    then no_match
    else loop_result candidate query (match_loop candidate.characters q qs 0 0 0)

unfoldable pub query_match_result : Candidate → Word → Result
unfolding match_characters
query_match_result candidate query = match_characters candidate query query.characters
