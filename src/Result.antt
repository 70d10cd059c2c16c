-- ===== src/Result.antt =====
-- `Result` of src/core/Result.h and Result.cpp: how well a candidate matches a query, and the
-- ranking of results.

pub mod Order
pub mod Subsequence
use ycmd_cpp.Base.{
  ℕ, Bool, true, false, not, xor, ◌&&◌, ◌||◌, List, [], ◌∷◌, ltb, ◌==◌, if◌then◌else◌, Bytes,
  bytes_lt, length,
}
use ycmd_cpp.Character.{Character, equals_base}
use ycmd_cpp.Word.{Word, is_empty}
use ycmd_cpp.Candidate.{Candidate}
use ycmd_cpp.Result.Subsequence.{longest_common_subsequence_length}

-- The fields of a result that the four-argument constructor made.
pub record Match : Type 0 where
  pub first_char_same_in_query_and_text : Bool
  pub query_is_candidate_prefix : Bool
  pub char_match_index_sum : ℕ
  pub num_wb_matches : ℕ
  pub candidate : Candidate
  pub query : Word

-- The default constructor leaves null pointers; `is_subsequence_` is set by the other one alone.
pub data Result : Type 0 where
  no_match : Result
  matched : Match → Result

unfoldable pub is_subsequence : Result → Bool
is_subsequence no_match = false
is_subsequence (matched m) = true

-- Do the first characters of the two have the same base?
unfoldable pub same_first : List Character → List Character → Bool
same_first (c ∷ cs) (q ∷ qs) = equals_base c q
same_first _ _ = false

-- `SetResultFeaturesFromQuery`. Where the source returns early, neither list has a first element
-- to compare and the features keep the constructor's `false` and 0.
unfoldable pub set_result_features_from_query : Match → Match
unfolding same_first is_empty
set_result_features_from_query m =
    if is_empty m.query || is_empty m.candidate.word then m else (record m {
      first_char_same_in_query_and_text = same_first m.candidate.characters m.query.characters;
      num_wb_matches =
          longest_common_subsequence_length m.query.characters m.candidate.word_boundary_chars;
    })

-- The four-argument constructor.
unfoldable pub make_result : Candidate → Word → ℕ → Bool → Match
unfolding set_result_features_from_query
make_result candidate query char_match_index_sum query_is_candidate_prefix =
    set_result_features_from_query (record {
      first_char_same_in_query_and_text = false;
      query_is_candidate_prefix = query_is_candidate_prefix;
      char_match_index_sum = char_match_index_sum;
      num_wb_matches = 0;
      candidate = candidate;
      query = query;
    })

abbrev pub num_word_boundary_chars : Match → ℕ
num_word_boundary_chars m = length m.candidate.word_boundary_chars

-- The last statement of `operator<`.
unfoldable pub text_lt : Match → Match → Bool
text_lt a b = bytes_lt a.candidate.case_swapped_text b.candidate.case_swapped_text

-- The tests of `operator<` from `query_is_candidate_prefix_` on.
unfoldable pub common_lt : Match → Match → Bool
unfolding text_lt
common_lt a b =
    if xor a.query_is_candidate_prefix b.query_is_candidate_prefix
    then a.query_is_candidate_prefix
    else if not (a.num_wb_matches == b.num_wb_matches)
    then ltb b.num_wb_matches a.num_wb_matches
    else if not (num_word_boundary_chars a == num_word_boundary_chars b)
    then ltb (num_word_boundary_chars a) (num_word_boundary_chars b)
    else if not (a.char_match_index_sum == b.char_match_index_sum)
    then ltb a.char_match_index_sum b.char_match_index_sum
    else if not (length a.candidate.characters == length b.candidate.characters)
    then ltb (length a.candidate.characters) (length b.candidate.characters)
    else if xor a.candidate.text_is_lowercase b.candidate.text_is_lowercase
    then a.candidate.text_is_lowercase
    else text_lt a b

-- `operator<` of results.
unfoldable pub result_lt : Match → Match → Bool
unfolding common_lt is_empty
result_lt a b =
    if is_empty a.query
    then text_lt a b
    else if xor a.first_char_same_in_query_and_text b.first_char_same_in_query_and_text
    then a.first_char_same_in_query_and_text
    else if a.num_wb_matches == length a.query.characters
        || b.num_wb_matches == length a.query.characters
    then (if not (a.num_wb_matches == b.num_wb_matches)
        then ltb b.num_wb_matches a.num_wb_matches
        else if not (num_word_boundary_chars a == num_word_boundary_chars b)
        then ltb (num_word_boundary_chars a) (num_word_boundary_chars b)
        else common_lt a b)
    else common_lt a b
