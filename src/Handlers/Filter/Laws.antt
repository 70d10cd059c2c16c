-- ===== src/Handlers/Filter/Laws.antt =====
-- What the filter keeps, and in what order.
use mathlib.Core.List.{append-nil, Perm, mem-cons, not-mem-nil}
use mathlib.Core.Logic.Or
use ycmd_cpp.Base.{
  ℕ, ◌+◌, ◌≡◌, refl, sym, ap, ◌∙◌, not, ◌||◌, Option, none, some, List, [], ◌∷◌, ◌++◌, map, arith,
  Bool-cases, Option-cases, inl, inr, length, length-append,
}
use ycmd_cpp.Std.{Algorithms, IsLawful, IsStrictWeak, IsSorted, Within}
use ycmd_cpp.Word.{Word, is_empty, contains_bytes}
use ycmd_cpp.Candidate.{Candidate}
use ycmd_cpp.Result.{Match, Result, no_match, matched}
use ycmd_cpp.Result.Order.{IsFor, IsFor-prop, result_lt-IsStrictWeak}
use ycmd_cpp.Query.{query_match_result}
use ycmd_cpp.Utils.Laws.{partial_sort_lem, Perm-length}
use ycmd_cpp.IdentifierDatabase.Search.Laws.{as_option, hit, hit-IsFor}
use ycmd_cpp.Handlers.Filter.{ResultAnd, result_and_lt, emplace, result_and_objects, rank}

-- The matches among the results for the candidates, each with its index.
unfoldable pub numbered : ℕ → List (Option Match) → List ResultAnd
numbered i [] = []
numbered i (none ∷ found) = numbered (i + 1) found
numbered i (some m ∷ found) = (m, i) ∷ numbered (i + 1) found

emplace-numbered :
    (r : Result) (i : ℕ) (found : List (Option Match))
    → emplace r i (numbered (i + 1) found) ≡ numbered i (as_option r ∷ found)
unfolding numbered as_option
emplace-numbered no_match i found = refl
emplace-numbered (matched m) i found = refl

result_and_objects-numbered :
    (query : Word) (i : ℕ) (cs : List Candidate)
    → result_and_objects query i cs ≡ numbered i (map (hit query) cs)
unfolding result_and_objects numbered hit
result_and_objects-numbered query i [] = refl
result_and_objects-numbered query i (c ∷ cs) =
    let later = result_and_objects-numbered query (i + 1) cs in
    elim (Bool-cases (is_empty c.word || not (contains_bytes c.word query))) [
      | inl skip ↦ rw (skip, numbered) later
      | inr test ↦ rw test (
          ap (emplace (query_match_result c query) i) later
          ∙ emplace-numbered (query_match_result c query) i (map (hit query) cs))
    ]

-- Every match stands for the query.
numbered-Within :
    (query : Word) (i : ℕ) (cs : List Candidate)
    → Within
        (λ (r : ResultAnd). IsFor (length query.characters) r.0)
        (numbered i (map (hit query) cs))
unfolding numbered
numbered-Within query i [] = λ r h. absurd (not-mem-nil h)
numbered-Within query i (c ∷ cs) = elim (Option-cases (hit query c)) [
  | inl e ↦ rw (e, numbered) (numbered-Within query (i + 1) cs)
  | inr (m, e) ↦
      rw (e, numbered)
        (λ r h.
          Or.elim (IsFor-prop _ r.0) (mem-cons.0 h) (λ same. rw same (hit-IsFor query c m e))
            (λ later. numbered-Within query (i + 1) cs r later))
]

result_and_lt-IsStrictWeak : (n : ℕ) → IsStrictWeak (λ (r : ResultAnd). IsFor n r.0) result_and_lt
unfolding result_and_lt
result_and_lt-IsStrictWeak n =
    let weak = result_lt-IsStrictWeak n in
    record {
      irrefl = λ a p. weak.irrefl a.0 p;
      trans = λ a b c p q r h k. weak.trans a.0 b.0 c.0 p q r h k;
      incomparable_trans = λ a b c p q r h k. weak.incomparable_trans a.0 b.0 c.0 p q r h k;
    }

no_length : {A : Type 0} (xs ys : List A) → length (xs ++ ys) ≡ length xs → ys ≡ []
no_length xs [] h = refl
no_length xs (y ∷ ys) h = absurd (omega (arith, h, length-append xs (y ∷ ys)))

-- The filter keeps the matches of all candidates that are not empty and have the query's bytes, each
-- with the index of its candidate and none twice, and sorts them by rank; for any lawful algorithms.
pub rank_lem :
    (std : Algorithms)
    → IsLawful std
    → (query : Word) (candidates : List Candidate)
    → Perm (rank std query candidates) (numbered 0 (map (hit query) candidates))
      × IsSorted result_and_lt (rank std query candidates)
unfolding rank
rank_lem std law query candidates =
    let n = length query.characters in
    let found = numbered 0 (map (hit query) candidates) in
    let (dropped, size, perm, sorted, split) =
      partial_sort_lem std law (λ (r : ResultAnd). IsFor n r.0) result_and_lt
        (result_and_lt-IsStrictWeak n) 0 found (numbered-Within query 0 candidates) in
    let none_dropped = no_length _ dropped (Perm-length perm ∙ sym size) in
    rw (result_and_objects-numbered query 0 candidates)
      (rw append-nil at (rw none_dropped at perm), sorted)
