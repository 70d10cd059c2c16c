-- ===== src/Handlers/Filter.antt =====
-- `handle_filter_and_sort_candidates` of src/handlers.cpp. The candidates are values of any type,
-- with their texts; a text that is missing throws before.
pub mod Laws
use ycmd_cpp.Base.{
  ℕ, zero, suc, ◌+◌, Bool, not, ◌||◌, Option, none, some, List, [], ◌∷◌, map, if◌then◌else◌, Bytes,
  get_elem?,
}
use ycmd_cpp.CodePoint.{Table}
use ycmd_cpp.CodePoint.Decode.{Decoded, ok, throw}
use ycmd_cpp.Std.{Algorithms}
use ycmd_cpp.Word.{Word, is_empty, contains_bytes, make_word}
use ycmd_cpp.Candidate.{Candidate}
use ycmd_cpp.Result.{Match, Result, no_match, matched, result_lt}
use ycmd_cpp.Query.{query_match_result}
use ycmd_cpp.Utils.{partial_sort}
use ycmd_cpp.Repository.{Holder}
use ycmd_cpp.IdentifierDatabase.Store.{get_candidates}

-- `ResultAnd< size_t >` and its `operator<`.
abbrev pub ResultAnd : Type 0
ResultAnd = Match × ℕ

unfoldable pub result_and_lt : ResultAnd → ResultAnd → Bool
unfolding result_lt
result_and_lt a b = result_lt a.0 b.0

abbrev pub emplace : Result → ℕ → List ResultAnd → List ResultAnd
emplace no_match i rest = rest
emplace (matched m) i rest = (m, i) ∷ rest

-- The loop over the candidates, from the index `i` on.
unfoldable pub result_and_objects : Word → ℕ → List Candidate → List ResultAnd
unfolding is_empty contains_bytes query_match_result
result_and_objects query i [] = []
result_and_objects query i (candidate ∷ candidates) =
    let rest = result_and_objects query (i + 1) candidates in
    if is_empty candidate.word || not (contains_bytes candidate.word query)
    then rest
    else emplace (query_match_result candidate query) i rest

-- The candidates of the request at the indices; an index out of range gives nothing.
unfoldable pub filtered_candidates : {A : Type 0} → List A → List ResultAnd → List (Option A)
filtered_candidates objects results = map (λ r. get_elem? objects r.1) results

unfoldable pub rank : Algorithms → Word → List Candidate → List ResultAnd
unfolding result_and_objects result_and_lt partial_sort
rank std query candidates = partial_sort std result_and_lt 0 (result_and_objects query 0 candidates)

unfoldable pub filter_and_sort :
    {A : Type 0}
    → Algorithms
    → Table
    → Holder Candidate
    → (A → Bytes)
    → List A
    → Bytes
    → Holder Candidate × Decoded (List (Option A))
unfolding get_candidates make_word rank filtered_candidates
filter_and_sort std table holder text_of objects query =
    let (holder', made) = get_candidates std table holder (map text_of objects) in
    elim made [
      | throw e ↦ (holder', throw e)
      | ok candidates ↦ elim (make_word std table query) [
        | throw e ↦ (holder', throw e)
        | ok query_object ↦
            (holder', ok (filtered_candidates objects (rank std query_object candidates)))
      ]
    ]
