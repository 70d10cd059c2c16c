-- ===== src/IdentifierDatabase/Search/Laws.antt =====
-- What `ResultsForQueryAndType` finds, and in what order.
use mathlib.Core.List.{append-nil, append_assoc, Perm, mem-cons, not-mem-nil}
use mathlib.Core.Logic.Or
use mathlib.Core.Option.{some-ne-none}
use ycmd_cpp.Base.{
  ℕ, ◌≡◌, refl, sym, ap, ◌∙◌, true, false, not, ◌&&◌, ◌||◌, Option, none, some, List, [], ◌∷◌, ◌++◌,
  arith, ltb, leb, if◌then◌else◌, Bool-cases, Option-cases, inl, inr, Bytes, bytes_eq, any, length,
}
use ycmd_cpp.Std.{Algorithms, IsLawful, IsSorted, IsSplit, Within}
use ycmd_cpp.Word.{Word, is_empty, contains_bytes}
use ycmd_cpp.Candidate.{Candidate}
use ycmd_cpp.Result.{Match, Result, no_match, matched, result_lt}
use ycmd_cpp.Result.Order.{IsFor, IsFor-prop, result_lt-IsStrictWeak}
use ycmd_cpp.Query.{query_match_result}
use ycmd_cpp.Query.Laws.{query_match_result-IsFor}
use ycmd_cpp.Utils.Laws.{partial_sort_lem}
use ycmd_cpp.IdentifierDatabase.Store.{FilepathToCandidates}
use ycmd_cpp.IdentifierDatabase.Search.{
  Scan, push_result, scan_candidate, scan_candidates, scan_paths, ranked_results,
}

-- The candidates of all files, in the order of the maps.
unfoldable pub all_candidates : FilepathToCandidates → List Candidate
all_candidates [] = []
all_candidates ((_, candidates) ∷ paths) = candidates ++ all_candidates paths

-- Of the candidates with one text the first, if the text is not among those seen.
unfoldable pub distinct : List Bytes → List Candidate → List Candidate
distinct seen [] = []
distinct seen (c ∷ cs) =
    let rest = distinct seen cs in
    let more = c ∷ distinct (c.text ∷ seen) cs in
    if any (λ text. bytes_eq text c.text) seen then rest else more

unfoldable pub as_option : Result → Option Match
as_option no_match = none
as_option (matched m) = some m

as_option-some : (r : Result) (m : Match) → as_option r ≡ some m → r ≡ matched m
unfolding as_option
as_option-some no_match m e = cc
as_option-some (matched m') m e = ground (arith, e)

-- The match of a candidate that passes the tests before it.
unfoldable pub hit : Word → Candidate → Option Match
unfolding as_option
hit query c =
    if is_empty c.word || not (contains_bytes c.word query)
    then none
    else as_option (query_match_result c query)

abbrev pub prepend_some : Option Match → List Match → List Match
prepend_some none ms = ms
prepend_some (some m) ms = m ∷ ms

unfoldable pub hits : Word → List Candidate → List Match
unfolding hit
hits query [] = []
hits query (c ∷ cs) = prepend_some (hit query c) (hits query cs)

push_result-as_option :
    (r : Result) (s : Scan)
    → push_result r s ≡ record s { results = s.results ++ prepend_some (as_option r) [] }
unfolding push_result as_option
push_result-as_option no_match s = rw append-nil
push_result-as_option (matched m) s = refl

-- The scan after a candidate that was not seen before.
scan_candidate_fresh :
    (query : Word) (c : Candidate) (s : Scan)
    → any (λ text. bytes_eq text c.text) s.seen_candidates ≡ false
    → scan_candidate query c s ≡ record {
      seen_candidates = c.text ∷ s.seen_candidates;
      results = s.results ++ prepend_some (hit query c) [];
    }
unfolding scan_candidate
scan_candidate_fresh query c s e =
    elim (Bool-cases (is_empty c.word || not (contains_bytes c.word query))) [
      | inl skip ↦ unfold hit in rw (e, skip, append-nil)
      | inr test ↦ unfold hit in rw (e, test) (push_result-as_option (query_match_result c query) _)
    ]

distinct_old :
    (seen : List Bytes) (c : Candidate) (cs : List Candidate)
    → any (λ text. bytes_eq text c.text) seen ≡ true
    → distinct seen (c ∷ cs) ≡ distinct seen cs
unfolding distinct
distinct_old seen c cs e = rw e

distinct_new :
    (seen : List Bytes) (c : Candidate) (cs : List Candidate)
    → any (λ text. bytes_eq text c.text) seen ≡ false
    → distinct seen (c ∷ cs) ≡ c ∷ distinct (c.text ∷ seen) cs
unfolding distinct
distinct_new seen c cs e = rw e

scan_candidate_seen :
    (query : Word) (c : Candidate) (s : Scan)
    → any (λ text. bytes_eq text c.text) s.seen_candidates ≡ true
    → scan_candidate query c s ≡ s
unfolding scan_candidate
scan_candidate_seen query c s e = rw e

append-prepend_some :
    (ms : List Match) (o : Option Match) (rest : List Match)
    → (ms ++ prepend_some o []) ++ rest ≡ ms ++ prepend_some o rest
append-prepend_some ms none rest = rw append-nil
append-prepend_some ms (some m) rest = append_assoc ms (m ∷ []) rest

scan_candidates-hits :
    (query : Word) (cs : List Candidate) (s : Scan)
    → (scan_candidates query cs s).results ≡ s.results ++ hits query (distinct s.seen_candidates cs)
unfolding scan_candidates hits
scan_candidates-hits query [] s = unfold hits distinct in rw append-nil
scan_candidates-hits query (c ∷ cs) s =
    let results_of = λ (t : Scan). (scan_candidates query cs t).results in
    let onto = λ (l : List Candidate). s.results ++ hits query l in
    elim (Bool-cases (any (λ text. bytes_eq text c.text) s.seen_candidates)) [
      | inl old ↦
          ap results_of (scan_candidate_seen query c s old)
          ∙ scan_candidates-hits query cs s
          ∙ ap onto (sym (distinct_old s.seen_candidates c cs old))
      | inr new ↦
          let s' : Scan = record {
            seen_candidates = c.text ∷ s.seen_candidates;
            results = s.results ++ prepend_some (hit query c) [];
          } in
          ap results_of (scan_candidate_fresh query c s new)
          ∙ scan_candidates-hits query cs s'
          ∙ append-prepend_some s.results (hit query c)
              (hits query (distinct (c.text ∷ s.seen_candidates) cs))
          ∙ ap onto (sym (distinct_new s.seen_candidates c cs new))
    ]

scan_candidates-append :
    (query : Word) (cs ds : List Candidate) (s : Scan)
    → scan_candidates query (cs ++ ds) s ≡ scan_candidates query ds (scan_candidates query cs s)
unfolding scan_candidates
scan_candidates-append query [] ds s = refl
scan_candidates-append query (c ∷ cs) ds s =
    scan_candidates-append query cs ds (scan_candidate query c s)

-- The two loops are one over the candidates of all files.
scan_paths-scan_candidates :
    (query : Word) (paths : FilepathToCandidates) (s : Scan)
    → scan_paths query paths s ≡ scan_candidates query (all_candidates paths) s
unfolding scan_paths all_candidates
scan_paths-scan_candidates query [] s = unfold scan_candidates in refl
scan_paths-scan_candidates query ((path, cs) ∷ paths) s =
    scan_paths-scan_candidates query paths (scan_candidates query cs s)
    ∙ sym (scan_candidates-append query cs (all_candidates paths) s)

pub hit-IsFor :
    (query : Word) (c : Candidate) (m : Match)
    → hit query c ≡ some m
    → IsFor (length query.characters) m
unfolding hit
hit-IsFor query c m e = elim (Bool-cases (is_empty c.word || not (contains_bytes c.word query))) [
  | inl skip ↦ absurd (some-ne-none m (sym e ∙ rw skip))
  | inr test ↦
      query_match_result-IsFor c query m
        (as_option-some (query_match_result c query) m (sym (rw test) ∙ e))
]

hits-IsFor :
    (query : Word) (cs : List Candidate) → Within (IsFor (length query.characters)) (hits query cs)
unfolding hits
hits-IsFor query [] = λ m h. absurd (not-mem-nil h)
hits-IsFor query (c ∷ cs) = elim (Option-cases (hit query c)) [
  | inl e ↦ rw e (hits-IsFor query cs)
  | inr (m, e) ↦ rw e (λ x h.
      Or.elim (IsFor-prop _ x) (mem-cons.0 h) (λ same. rw same (hit-IsFor query c m e))
        (λ later. hits-IsFor query cs x later))
]

-- The results for a query are the matches of the distinct candidates of the file type that are
-- not empty and have the query's bytes: those that are kept are sorted by rank, as many as were
-- asked for (all, for 0), and none that is dropped ranks before one that is kept.
pub ranked_results_lem :
    (std : Algorithms)
    → IsLawful std
    → (query : Word) (paths : FilepathToCandidates) (max_results : ℕ)
    → let out = ranked_results std query paths max_results in
      let found = hits query (distinct [] (all_candidates paths)) in
      (dropped : List Match) × (length out ≡ (
        if ltb 0 max_results && leb max_results (length found) then max_results else length found))
      × Perm (out ++ dropped) found
      × IsSorted result_lt out
      × IsSplit result_lt out dropped
unfolding ranked_results
ranked_results_lem std law query paths max_results =
    let n = length query.characters in
    rw (scan_paths-scan_candidates, scan_candidates-hits)
      (partial_sort_lem std law (IsFor n) result_lt (result_lt-IsStrictWeak n) max_results _
        (hits-IsFor query (distinct [] (all_candidates paths))))
