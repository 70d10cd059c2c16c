-- ===== src/IdentifierDatabase/Search.antt =====
-- `ResultsForQueryAndType`.
pub mod Laws
pub mod Found
use ycmd_cpp.Base.{
  ℕ, Bool, true, false, not, ◌||◌, Option, none, some, List, [], ◌∷◌, ◌++◌, if◌then◌else◌, Bytes,
  bytes_eq, find, any,
}
use ycmd_cpp.CodePoint.{Table}
use ycmd_cpp.CodePoint.Decode.{Decoded, ok, throw, ◌>>=◌}
use ycmd_cpp.Std.{Algorithms}
use ycmd_cpp.Word.{Word, is_empty, contains_bytes, make_word}
use ycmd_cpp.Candidate.{Candidate}
use ycmd_cpp.Result.{Match, Result, no_match, matched, result_lt}
use ycmd_cpp.Query.{query_match_result}
use ycmd_cpp.Utils.{partial_sort}
use ycmd_cpp.IdentifierDatabase.Store.{Database, FilepathToCandidates}

-- The variables of the loops: the texts in `seen_candidates`, and `results`.
pub record Scan : Type 0 where
  pub seen_candidates : List Bytes
  pub results : List Match

-- `if ( result.IsSubsequence() ) results.push_back( result );`.
unfoldable pub push_result : Result → Scan → Scan
push_result no_match s = s
push_result (matched m) s = record s { results = s.results ++ (m ∷ []) }

-- The body of the inner loop.
unfoldable pub scan_candidate : Word → Candidate → Scan → Scan
unfolding is_empty contains_bytes query_match_result push_result
scan_candidate query candidate s =
    if any (λ text. bytes_eq text candidate.text) s.seen_candidates
    then s
    else (let s' : Scan = record s { seen_candidates = candidate.text ∷ s.seen_candidates } in
        if is_empty candidate.word || not (contains_bytes candidate.word query)
        then s'
        else push_result (query_match_result candidate query) s')

unfoldable pub scan_candidates : Word → List Candidate → Scan → Scan
unfolding scan_candidate
scan_candidates query [] s = s
scan_candidates query (candidate ∷ candidates) s =
    scan_candidates query candidates (scan_candidate query candidate s)

unfoldable pub scan_paths : Word → FilepathToCandidates → Scan → Scan
unfolding scan_candidates
scan_paths query [] s = s
scan_paths query ((_, candidates) ∷ paths) s =
    scan_paths query paths (scan_candidates query candidates s)

-- The part after the query's word is made.
unfoldable pub ranked_results : Algorithms → Word → FilepathToCandidates → ℕ → List Match
unfolding scan_paths partial_sort result_lt
ranked_results std query paths max_results =
    partial_sort std result_lt max_results
      (scan_paths query paths (record { seen_candidates = []; results = [] })).results

unfoldable pub results_for_query_and_type :
    Algorithms → Table → Database → Bytes → Bytes → ℕ → Decoded (List Match)
unfolding make_word ranked_results find
results_for_query_and_type std table db query filetype max_results =
    elim (find filetype db.filetype_candidate_map) [
      | none ↦ ok []
      | some paths ↦ do
        query_object ← make_word std table query
        ok (ranked_results std query_object paths max_results)
    ]
