-- ===== src/IdentifierDatabase/Store.antt =====
-- The state, and the methods that add identifiers.
pub mod Laws
pub mod Stored
pub mod Sound
use ycmd_cpp.Base.{
  Bool, Option, none, some, List, [], ◌∷◌, ◌++◌, map, if◌then◌else◌, Bytes, bytes_eq, Dict, find,
  put, any,
}
use ycmd_cpp.CodePoint.{Table}
use ycmd_cpp.CodePoint.Decode.{Decoded, ok, throw}
use ycmd_cpp.Std.{Algorithms}
use ycmd_cpp.Candidate.{Candidate, make_candidate}
use ycmd_cpp.Repository.{Holder, try_emplace, clip, get_elements}

-- filepath -> candidates, and filetype -> ( filepath -> candidates ).
abbrev pub FilepathToCandidates : Type 0
FilepathToCandidates = Dict (List Candidate)

abbrev pub FiletypeCandidateMap : Type 0
FiletypeCandidateMap = Dict FilepathToCandidates

pub record Database : Type 0 where
  pub candidate_repository : Holder Candidate
  pub filetype_candidate_map : FiletypeCandidateMap

-- filepath -> identifiers, and filetype -> ( filepath -> identifiers ).
abbrev pub FilepathToIdentifiers : Type 0
FilepathToIdentifiers = Dict (List Bytes)

abbrev pub FiletypeIdentifierMap : Type 0
FiletypeIdentifierMap = Dict FilepathToIdentifiers

abbrev pub paths_of : FiletypeCandidateMap → Bytes → FilepathToCandidates
paths_of m filetype = elim (find filetype m) [ none ↦ [] | some paths ↦ paths ]

-- The set that `GetCandidateSet` refers to; a missing one is created empty.
unfoldable pub candidate_set : FiletypeCandidateMap → Bytes → Bytes → List Candidate
unfolding find
candidate_set m filetype filepath = elim (find filepath (paths_of m filetype)) [
  | none ↦ []
  | some candidates ↦ candidates
]

-- The two `operator[]` of `GetCandidateSet`: they insert what is missing.
unfoldable pub get_candidate_set : FiletypeCandidateMap → Bytes → Bytes → FiletypeCandidateMap
unfolding find put try_emplace
get_candidate_set m filetype filepath =
    put filetype (try_emplace filepath [] (paths_of m filetype)) m

-- An assignment through the reference that `GetCandidateSet` returns.
unfoldable pub assign : FiletypeCandidateMap → Bytes → Bytes → List Candidate → FiletypeCandidateMap
unfolding find put
assign m filetype filepath candidates =
    put filetype (put filepath candidates (paths_of m filetype)) m

abbrev pub has_text : Bytes → List Candidate → Bool
has_text text = any (λ c. bytes_eq c.text text)

-- The last part of `RecreateIdentifiersNoLock`, after `GetElements`.
unfoldable pub store_candidates :
    FiletypeCandidateMap
    → Bytes
    → Bytes
    → Holder Candidate × Decoded (List Candidate)
    → Database × Decoded (Unit {0})
unfolding assign
store_candidates m filetype filepath (holder, throw e) =
    (record { candidate_repository = holder; filetype_candidate_map = m }, throw e)
store_candidates m filetype filepath (holder, ok candidates) = (
  record {
    candidate_repository = holder;
    filetype_candidate_map = assign m filetype filepath candidates;
  },
  ok tt,
)

-- The last part of `AddSingleIdentifier`, after `GetElements`.
unfoldable pub add_candidate :
    FiletypeCandidateMap
    → Bytes
    → Bytes
    → Holder Candidate × Decoded (List Candidate)
    → Database × Decoded (Unit {0})
unfolding get_candidate_set candidate_set assign
add_candidate m filetype filepath (holder, throw e) =
    (record { candidate_repository = holder; filetype_candidate_map = m }, throw e)
add_candidate m filetype filepath (holder, ok []) =
    (record { candidate_repository = holder; filetype_candidate_map = m }, ok tt)
add_candidate m filetype filepath (holder, ok (candidate ∷ _)) =
    let m' = get_candidate_set m filetype filepath in
    let current = candidate_set m' filetype filepath in
    (
      record {
        candidate_repository = holder;
        filetype_candidate_map =
            if has_text candidate.text current
            then m'
            else assign m' filetype filepath (current ++ (candidate ∷ []));
      },
      ok tt,
    )

module _ (std : Algorithms) (table : Table) where
  -- What `GetElements` gives of the repository of candidates.
  unfoldable pub get_candidates :
      Holder Candidate → List Bytes → Holder Candidate × Decoded (List Candidate)
  unfolding clip get_elements make_candidate
  get_candidates holder elements =
      get_elements (make_candidate std table) holder (map clip elements)

  unfoldable pub recreate_identifiers_no_lock :
      Database → List Bytes → Bytes → Bytes → Database × Decoded (Unit {0})
  unfolding get_candidate_set get_candidates store_candidates
  recreate_identifiers_no_lock db new_candidates filetype filepath =
      store_candidates (get_candidate_set db.filetype_candidate_map filetype filepath) filetype
        filepath (get_candidates db.candidate_repository new_candidates)

  -- The loop over the files of one file type.
  unfoldable pub recreate_paths :
      Database → Bytes → FilepathToIdentifiers → Database × Decoded (Unit {0})
  unfolding recreate_identifiers_no_lock
  recreate_paths db filetype [] = (db, ok tt)
  recreate_paths db filetype ((filepath, identifiers) ∷ paths) =
      let (db', done) = recreate_identifiers_no_lock db identifiers filetype filepath in
      let rest = recreate_paths db' filetype paths in
      elim done [ throw e ↦ (db', throw e) | ok _ ↦ rest ]

  -- `RecreateIdentifiers` from a map.
  unfoldable pub recreate_identifiers :
      Database → FiletypeIdentifierMap → Database × Decoded (Unit {0})
  unfolding recreate_paths
  recreate_identifiers db [] = (db, ok tt)
  recreate_identifiers db ((filetype, paths) ∷ filetypes) =
      let (db', done) = recreate_paths db filetype paths in
      let rest = recreate_identifiers db' filetypes in
      elim done [ throw e ↦ (db', throw e) | ok _ ↦ rest ]

  unfoldable pub add_single_identifier :
      Database → Bytes → Bytes → Bytes → Database × Decoded (Unit {0})
  unfolding get_candidates add_candidate
  add_single_identifier db new_candidate filetype filepath =
      add_candidate db.filetype_candidate_map filetype filepath
        (get_candidates db.candidate_repository (new_candidate ∷ []))
