-- ===== src/Tests/Database.antt =====
-- The identifier database at concrete inputs.
use mathlib.Core.List.{Perm}
use ycmd_cpp.Base.{◌≡◌, List, [], ◌∷◌, ◌++◌, Bytes, length, ltb, leb, if◌then◌else◌, map, ◌&&◌}
use ycmd_cpp.CodePoint.Decode.{ok, ◌>>=◌, map_decoded}
use ycmd_cpp.Std.{IsSorted, IsSplit}
use ycmd_cpp.Std.Instance.{insertion_algorithms, insertion_algorithms-IsLawful}
use ycmd_cpp.Candidate.{make_candidate}
use ycmd_cpp.Repository.{clip}
use ycmd_cpp.Repository.Laws.{nil-IsCache}
use ycmd_cpp.Result.{Match, result_lt}
use ycmd_cpp.IdentifierDatabase.Store.{
  Database, FilepathToCandidates, candidate_set, recreate_identifiers_no_lock,
  add_single_identifier,
}
use ycmd_cpp.IdentifierDatabase.Store.Laws.{
  IsCached, replaced, extended, same_file, recreate_identifiers_no_lock_lem,
  add_single_identifier_lem,
}
use ycmd_cpp.IdentifierDatabase.Search.{ranked_results}
use ycmd_cpp.IdentifierDatabase.Search.Laws.{all_candidates, distinct, hits, ranked_results_lem}
use ycmd_cpp.Tests.Data.{codes, foo_bar, fb, table}

abbrev empty_database : Database
empty_database = record { candidate_repository = []; filetype_candidate_map = [] }

abbrev names : List Bytes
names = codes "AB" ∷ codes "B" ∷ []

recreate_identifiers_no_lock_example :
    let made = map_decoded (make_candidate insertion_algorithms table) (map clip names) in
    let after =
      recreate_identifiers_no_lock insertion_algorithms table empty_database names
        (codes "cpp")
        (codes "a.cpp") in
    (after.1 ≡ (made >>= λ _. ok tt))
    × IsCached insertion_algorithms table after.0
    × ((ft fp : Bytes)
        → candidate_set after.0.filetype_candidate_map ft fp
          ≡ replaced made (same_file (codes "cpp") (codes "a.cpp") ft fp) (candidate_set [] ft fp))
recreate_identifiers_no_lock_example =
    recreate_identifiers_no_lock_lem insertion_algorithms table empty_database names (codes "cpp")
      (codes "a.cpp") (nil-IsCache (make_candidate insertion_algorithms table))

add_single_identifier_example :
    let made = make_candidate insertion_algorithms table (clip (codes "AB")) in
    let after =
      add_single_identifier insertion_algorithms table empty_database
        (codes "AB")
        (codes "cpp")
        (codes "a.cpp") in
    (after.1 ≡ (made >>= λ _. ok tt))
    × IsCached insertion_algorithms table after.0
    × ((ft fp : Bytes)
        → candidate_set after.0.filetype_candidate_map ft fp
          ≡ extended made (same_file (codes "cpp") (codes "a.cpp") ft fp) (candidate_set [] ft fp))
add_single_identifier_example =
    add_single_identifier_lem insertion_algorithms table empty_database (codes "AB") (codes "cpp")
      (codes "a.cpp") (nil-IsCache (make_candidate insertion_algorithms table))

-- The same candidate in two files.
abbrev two_files : FilepathToCandidates
two_files = (codes "a.cpp", foo_bar ∷ []) ∷ (codes "b.cpp", foo_bar ∷ []) ∷ []

ranked_results_example :
    let out = ranked_results insertion_algorithms fb two_files 10 in
    let found = hits fb (distinct [] (all_candidates two_files)) in
    (dropped : List Match) × (length out
      ≡ (if ltb 0 10 && leb 10 (length found) then 10 else length found))
    × Perm (out ++ dropped) found
    × IsSorted result_lt out
    × IsSplit result_lt out dropped
ranked_results_example =
    ranked_results_lem insertion_algorithms insertion_algorithms-IsLawful fb two_files 10
