-- ===== src/Result/Order.antt =====
-- `operator<` of results against the comparison of keys.
use native.Mathlib.Nat.{ℕ_set}
use native.Mathlib.Bridge.{le_prop}
use ycmd_cpp.Base.{
  ◌≢◌, ℕ, zero, suc, ◌-◌, ◌≤◌, ◌≡◌, refl, sym, ◌∙◌, Bool, true, false, xor, ◌||◌, List, ◌∷◌, arith,
  ◌==◌, if◌then◌else◌, Bool-cases, inl, inr, bytes_lt, length, bytes_lt_irrefl, bytes_lt_trans,
  bytes_lt_negative_trans,
}
use ycmd_cpp.Word.{Word, is_empty}
use ycmd_cpp.Candidate.{Candidate}
use ycmd_cpp.Std.{IsStrictWeak}
use ycmd_cpp.Result.{Match, num_word_boundary_chars, common_lt, result_lt, make_result}
use ycmd_cpp.Result.Subsequence.Laws.{longest_common_subsequence_length-le}

-- A result for a query of `n` characters, of which it counts no more as boundary matches.
pub record IsFor (n : ℕ) (m : Match) : Type 0 where
  pub asked : length m.query.characters ≡ n
  pub bounded : m.num_wb_matches ≤ n

pub IsFor-prop : (n : ℕ) (m : Match) → IsProp (IsFor n m)
IsFor-prop n m p q =
    λ i. record { asked = ℕ_set _ _ p.asked q.asked i; bounded = le_prop p.bounded q.bounded i }

-- Every result that the constructor makes is one for its query.
pub make_result-IsFor :
    (candidate : Candidate) (query : Word) (sum : ℕ) (prefix : Bool)
    → IsFor (length query.characters) (make_result candidate query sum prefix)
unfolding make_result
make_result-IsFor candidate query sum prefix =
    elim (Bool-cases (is_empty query || is_empty candidate.word)) [
      | inl e ↦ rw e (record { asked = refl; bounded = omega arith })
      | inr e ↦ rw e (record {
        asked = refl;
        bounded = longest_common_subsequence_length-le query.characters _;
      })
    ]

is_empty_none : (w : Word) → length w.characters ≡ 0 → is_empty w ≡ true
unfolding is_empty
is_empty_none w h = ground arith

is_empty_some : (w : Word) → length w.characters ≢ 0 → is_empty w ≡ false
unfolding is_empty
is_empty_some w h = ground arith

abbrev not_set : Bool → ℕ
not_set b = if b then 0 else 1

-- The features in the order of their weight, each so that the better result has the smaller one.
common_rank : ℕ → Match → List ℕ
common_rank query_length m =
    not_set m.query_is_candidate_prefix
    ∷ (query_length - m.num_wb_matches)
    ∷ num_word_boundary_chars m
    ∷ m.char_match_index_sum
    ∷ length m.candidate.characters
    ∷ not_set m.candidate.text_is_lowercase
    ∷ m.candidate.case_swapped_text

-- First of all come the first character and, if the whole query matches word boundaries, that
-- and their number.
rank : ℕ → Match → List ℕ
rank query_length m =
    let full : Bool = m.num_wb_matches == query_length in
    not_set m.first_char_same_in_query_and_text
    ∷ not_set full
    ∷ (if full then num_word_boundary_chars m else 0)
    ∷ common_rank query_length m

common_lt-rank :
    (n : ℕ) (a b : Match)
    → a.num_wb_matches ≤ n
    → b.num_wb_matches ≤ n
    → common_lt a b ≡ bytes_lt (common_rank n a) (common_rank n b)
unfolding common_lt common_rank bytes_lt xor
common_lt-rank n a b p q = ground arith

ranked_lt-rank :
    (n : ℕ) (a b : Match)
    → is_empty a.query ≡ false
    → length a.query.characters ≡ n
    → a.num_wb_matches ≤ n
    → b.num_wb_matches ≤ n
    → result_lt a b ≡ bytes_lt (rank n a) (rank n b)
unfolding result_lt rank bytes_lt xor
ranked_lt-rank n a b h e p q = ground (arith, common_lt-rank n a b)

-- What a result for a query of `n` characters is ranked by: for none the case-swapped text alone.
pub key : ℕ → Match → List ℕ
key zero m = m.candidate.case_swapped_text
key (suc n) m = rank (suc n) m

-- On the results for one query, `operator<` is the lexicographic order of the keys: first
-- character, whole query on word boundaries and then fewest of these, prefix, boundary matches,
-- boundary characters, index sum, length, lowercase, case-swapped text.
pub result_lt-key :
    (n : ℕ) (a b : Match) → IsFor n a → IsFor n b → result_lt a b ≡ bytes_lt (key n a) (key n b)
unfolding key
result_lt-key zero a b p q = unfold result_lt in rw (is_empty_none a.query p.asked)
result_lt-key (suc n) a b p q =
    ranked_lt-rank (suc n) a b (is_empty_some a.query (omega (arith, p.asked))) p.asked p.bounded
      q.bounded

-- On the results for one query, `operator<` is a strict weak order, which the sorting algorithms
-- require of it.
pub result_lt-IsStrictWeak : (n : ℕ) → IsStrictWeak (IsFor n) result_lt
result_lt-IsStrictWeak n = record {
  irrefl = λ a p. rw (result_lt-key n a a p p) (bytes_lt_irrefl (key n a));
  trans = λ a b c p q r h k. rw (result_lt-key n a c p r) (
      bytes_lt_trans (key n a) (key n b) (key n c) (sym (result_lt-key n a b p q) ∙ h)
        (sym (result_lt-key n b c q r) ∙ k));
  incomparable_trans = λ a b c p q r h k. rw (result_lt-key n a c p r) (
      bytes_lt_negative_trans (key n a) (key n b) (key n c) (sym (result_lt-key n a b p q) ∙ h)
        (sym (result_lt-key n b c q r) ∙ k));
}
