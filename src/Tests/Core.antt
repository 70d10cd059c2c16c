-- ===== src/Tests/Core.antt =====
-- The ranking core at concrete inputs.
use mathlib.Core.List.{Perm}
use ycmd_cpp.Base.{
  ℕ, ◌+◌, ◌*◌, ◌^◌, ◌<◌, ◌≤◌, ◌≡◌, ◌≢◌, ◌↔◌, refl, true, false, List, [], ◌∷◌, ◌++◌, map, arith,
  Bytes, concat, All, length, ltb, bytes_eq, bytes_lt,
}
use ycmd_cpp.BreakProperty.{regional_indicator, other, extend}
use ycmd_cpp.CodePoint.{CodePoint}
use ycmd_cpp.CodePoint.Decode.{ok, map_decoded, split_code_points}
use ycmd_cpp.CodePoint.Decode.Laws.{IsCodePoint, split_code_points_iff}
use ycmd_cpp.Std.{IsStrictWeak, IsSorted, IsSplit}
use ycmd_cpp.Std.Instance.{insertion_algorithms, insertion_algorithms-IsLawful}
use ycmd_cpp.Word.Break.{break_code_points_into_characters}
use ycmd_cpp.Word.Rules.{grapheme_clusters}
use ycmd_cpp.Word.Laws.{
  break_code_points_into_characters-grapheme_clusters, concat-break_code_points_into_characters,
}
use ycmd_cpp.Candidate.{make_candidate, from_word}
use ycmd_cpp.Character.{matches_smart, canonical_sort}
use ycmd_cpp.Character.Ordering.{IsOrdering, canonical_sort-IsOrdering}
use ycmd_cpp.Result.{Match, matched, make_result, is_subsequence, result_lt}
use ycmd_cpp.Result.Order.{IsFor, key, make_result-IsFor, result_lt-key, result_lt-IsStrictWeak}
use ycmd_cpp.Result.Subsequence.{longest_common_subsequence_length}
use ycmd_cpp.Result.Subsequence.Laws.{Common, longest_common_subsequence_length_lem}
use ycmd_cpp.Query.{query_match_result}
use ycmd_cpp.Query.Embedding.{Embeds, IsPrefix, sum}
use ycmd_cpp.Query.Laws.{
  IsLeast, is_subsequence-query_match_result, query_match_result-IsLeast, query_match_result_prefix,
}
use ycmd_cpp.Query.Bounds.{query_match_result-index_sum}
use ycmd_cpp.Utils.{partial_sort}
use ycmd_cpp.Utils.Laws.{partial_sort_lem}
use ycmd_cpp.Repository.{get_elements}
use ycmd_cpp.Repository.Laws.{IsCache, nil-IsCache, get_elements-map_decoded}
use ycmd_cpp.Tests.Data.{codes, foo_bar, foo_bar_characters, fb, with_property, table}

-- Three regional indicators and a letter: a flag, half a flag, the letter.
abbrev flags : List CodePoint
flags =
    with_property 1 regional_indicator
    ∷ with_property 2 regional_indicator
    ∷ with_property 3 regional_indicator
    ∷ with_property 4 other
    ∷ []

break_flags : break_code_points_into_characters flags ≡ (1 ∷ 2 ∷ []) ∷ (3 ∷ []) ∷ (4 ∷ []) ∷ []
unfolding break_code_points_into_characters
break_flags = refl

-- A letter with two marks out of order, and another letter.
abbrev accents : List CodePoint
accents =
    with_property 1 other
    ∷ (record (with_property 2 extend) { combining_class = 230 })
    ∷ (record (with_property 3 extend) { combining_class = 220 })
    ∷ with_property 4 other
    ∷ []

canonical_sort-IsOrdering_example : IsOrdering accents (canonical_sort insertion_algorithms accents)
canonical_sort-IsOrdering_example =
    canonical_sort-IsOrdering insertion_algorithms insertion_algorithms-IsLawful accents

break_code_points_into_characters_example :
    break_code_points_into_characters flags ≡ grapheme_clusters flags
break_code_points_into_characters_example =
    break_code_points_into_characters-grapheme_clusters flags

concat-break_example :
    concat (break_code_points_into_characters flags) ≡ concat (map (λ cp. cp.normal) flags)
concat-break_example = concat-break_code_points_into_characters flags

-- "a" and "é".
abbrev two_points : Bytes
two_points = b'a' ∷ 0xc3 ∷ 0xa9 ∷ []

abbrev two_pieces : List Bytes
two_pieces = (b'a' ∷ []) ∷ (0xc3 ∷ 0xa9 ∷ []) ∷ []

split_code_points_example :
    (split_code_points two_points ≡ ok two_pieces)
    ↔ ((concat two_pieces ≡ two_points) × All IsCodePoint two_pieces)
split_code_points_example = split_code_points_iff two_points two_pieces

longest_common_subsequence_length_example :
    Common fb.characters foo_bar_characters
      (longest_common_subsequence_length fb.characters foo_bar_characters)
    × ((n : ℕ)
        → Common fb.characters foo_bar_characters n
        → n ≤ longest_common_subsequence_length fb.characters foo_bar_characters)
longest_common_subsequence_length_example =
    longest_common_subsequence_length_lem fb.characters foo_bar_characters

abbrev fb_match : Match
fb_match = make_result foo_bar fb 3 false

fb_matches : query_match_result foo_bar fb ≡ matched fb_match
unfolding query_match_result from_word matches_smart bytes_eq
fb_matches = refl

is_subsequence-query_match_result_example :
    (is_subsequence (query_match_result foo_bar fb) ≡ true
      → (ps : List ℕ) × Embeds 0 fb.characters foo_bar.characters ps)
    × ((ps : List ℕ)
        → Embeds 0 fb.characters foo_bar.characters ps
        → is_subsequence (query_match_result foo_bar fb) ≡ true)
is_subsequence-query_match_result_example = is_subsequence-query_match_result foo_bar fb

query_match_result-IsLeast_example :
    (ps : List ℕ) × Embeds 0 fb.characters foo_bar.characters ps
    × (fb_match.char_match_index_sum ≡ sum ps)
    × IsLeast 0 fb.characters foo_bar.characters ps
query_match_result-IsLeast_example = query_match_result-IsLeast foo_bar fb fb_match fb_matches

query_match_result_prefix_example :
    (fb_match.query_is_candidate_prefix ≡ true)
    ↔ ((fb.characters ≢ []) × IsPrefix fb.characters foo_bar.characters)
query_match_result_prefix_example = query_match_result_prefix foo_bar fb fb_match fb_matches

query_match_result-index_sum_example :
    (length fb.characters * length fb.characters
      ≤ 2 * fb_match.char_match_index_sum + length fb.characters)
    × (2 * fb_match.char_match_index_sum
          + length fb.characters * length fb.characters
          + length fb.characters
        ≤ 2 * length fb.characters * length foo_bar.characters)
    × (length foo_bar.characters < 2 ^ 32 → fb_match.char_match_index_sum < 2 ^ 64)
query_match_result-index_sum_example = query_match_result-index_sum foo_bar fb fb_match fb_matches

abbrev prefix_match : Match
prefix_match = make_result foo_bar fb 1 true

result_lt-key_example :
    result_lt fb_match prefix_match ≡ bytes_lt (key 2 fb_match) (key 2 prefix_match)
result_lt-key_example =
    result_lt-key 2 fb_match prefix_match (make_result-IsFor foo_bar fb 3 false)
      (make_result-IsFor foo_bar fb 1 true)

result_lt-IsStrictWeak_example : IsStrictWeak (IsFor 2) result_lt
result_lt-IsStrictWeak_example = result_lt-IsStrictWeak 2

-- The constructor of words, at the second request for the same string.
get_elements_example :
    ((get_elements (make_candidate insertion_algorithms table) [] (codes "AB" ∷ codes "AB" ∷ [])).1
      ≡ map_decoded (make_candidate insertion_algorithms table) (codes "AB" ∷ codes "AB" ∷ []))
    × IsCache
        (make_candidate insertion_algorithms table)
        (get_elements
          (make_candidate insertion_algorithms table)
          []
          (codes "AB" ∷ codes "AB" ∷ [])).0
get_elements_example =
    get_elements-map_decoded (make_candidate insertion_algorithms table) []
      (codes "AB" ∷ codes "AB" ∷ []) (nil-IsCache (make_candidate insertion_algorithms table))

-- No number is below itself.
ltb-IsStrictWeak : IsStrictWeak (λ (n : ℕ). Unit {0}) ltb
ltb-IsStrictWeak = record {
  irrefl = λ a p. ground arith;
  trans = λ a b c p q r h k. ground arith;
  incomparable_trans = λ a b c p q r h k. ground arith;
}

partial_sort_example :
    let out = partial_sort insertion_algorithms ltb 2 (5 ∷ 3 ∷ 4 ∷ 1 ∷ []) in
    (dropped : List ℕ) × (length out ≡ 2)
    × Perm (out ++ dropped) (5 ∷ 3 ∷ 4 ∷ 1 ∷ [])
    × IsSorted ltb out
    × IsSplit ltb out dropped
partial_sort_example =
    partial_sort_lem insertion_algorithms insertion_algorithms-IsLawful (λ n. Unit {0}) ltb
      ltb-IsStrictWeak 2 (5 ∷ 3 ∷ 4 ∷ 1 ∷ []) (λ x m. tt)
