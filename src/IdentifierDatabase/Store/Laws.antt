-- ===== src/IdentifierDatabase/Store/Laws.antt =====
-- What the methods that add identifiers leave in every candidate set.
use ycmd_cpp.Base.{
  ◌≡◌, refl, ap, ◌∙◌, Bool, true, not, ◌&&◌, List, [], ◌∷◌, ◌++◌, map, arith, if◌then◌else◌, Bytes,
  bytes_eq, bytes_eq_iff, put, find-put,
}
use ycmd_cpp.CodePoint.{Table}
use ycmd_cpp.CodePoint.Decode.{Decoded, ok, throw, ◌>>=◌, map_decoded}
use ycmd_cpp.Std.{Algorithms}
use ycmd_cpp.Candidate.{Candidate, make_candidate}
use ycmd_cpp.Repository.{Holder, try_emplace, clip}
use ycmd_cpp.Repository.Laws.{find-try_emplace, IsCache, get_elements-map_decoded}
use ycmd_cpp.IdentifierDatabase.Store.{
  FiletypeCandidateMap, Database, candidate_set, get_candidate_set, assign, has_text,
  get_candidates, store_candidates, recreate_identifiers_no_lock, add_candidate,
  add_single_identifier, paths_of,
}

-- Are these the same file type and file?
abbrev pub same_file : Bytes → Bytes → Bytes → Bytes → Bool
same_file filetype filepath ft fp = bytes_eq filetype ft && bytes_eq filepath fp

candidate_set-get_candidate_set :
    (m : FiletypeCandidateMap) (filetype filepath ft fp : Bytes)
    → candidate_set (get_candidate_set m filetype filepath) ft fp ≡ candidate_set m ft fp
unfolding candidate_set get_candidate_set
candidate_set-get_candidate_set m filetype filepath ft fp = ground (
  arith,
  find-put filetype ft (try_emplace filepath [] (paths_of m filetype)) m,
  find-try_emplace filepath fp [] (paths_of m filetype),
  bytes_eq_iff filetype ft,
  bytes_eq_iff filepath fp,
)

candidate_set-assign :
    (m : FiletypeCandidateMap) (filetype filepath ft fp : Bytes) (candidates : List Candidate)
    → candidate_set (assign m filetype filepath candidates) ft fp
      ≡ (if same_file filetype filepath ft fp then candidates else candidate_set m ft fp)
unfolding candidate_set assign
candidate_set-assign m filetype filepath ft fp candidates = ground (
  arith,
  find-put filetype ft (put filepath candidates (paths_of m filetype)) m,
  find-put filepath fp candidates (paths_of m filetype),
  bytes_eq_iff filetype ft,
  bytes_eq_iff filepath fp,
)

-- The set after new candidates are stored for the file, if they could be made.
abbrev pub replaced : Decoded (List Candidate) → Bool → List Candidate → List Candidate
replaced (ok candidates) same old = if same then candidates else old
replaced (throw e) same old = old

-- The set after one candidate is added to the file's, unless its text is there.
abbrev pub extended : Decoded Candidate → Bool → List Candidate → List Candidate
extended (ok c) same old = if same && not (has_text c.text old) then old ++ (c ∷ []) else old
extended (throw e) same old = old

store_candidates-replaced :
    (m : FiletypeCandidateMap) (filetype filepath ft fp : Bytes)
    (got : Holder Candidate × Decoded (List Candidate))
    → let after = store_candidates m filetype filepath got in
      (after.1 ≡ (got.1 >>= λ _. ok tt))
      × (after.0.candidate_repository ≡ got.0)
      × (candidate_set after.0.filetype_candidate_map ft fp
          ≡ replaced got.1 (same_file filetype filepath ft fp) (candidate_set m ft fp))
unfolding store_candidates
store_candidates-replaced m filetype filepath ft fp (holder, ok candidates) =
    (refl, refl, candidate_set-assign m filetype filepath ft fp candidates)
store_candidates-replaced m filetype filepath ft fp (holder, throw e) = (refl, refl, refl)

same_file-candidate_set :
    (m : FiletypeCandidateMap) (filetype filepath ft fp : Bytes)
    → same_file filetype filepath ft fp ≡ true
    → candidate_set m filetype filepath ≡ candidate_set m ft fp
same_file-candidate_set m filetype filepath ft fp e =
    ground (arith, bytes_eq_iff filetype ft, bytes_eq_iff filepath fp)

add_candidate-extended :
    (m : FiletypeCandidateMap) (filetype filepath ft fp : Bytes) (holder : Holder Candidate)
    (made : Decoded Candidate)
    → let after = add_candidate m filetype filepath (holder, made >>= λ c. ok (c ∷ [])) in
      (after.1 ≡ (made >>= λ _. ok tt))
      × (after.0.candidate_repository ≡ holder)
      × (candidate_set after.0.filetype_candidate_map ft fp
          ≡ extended made (same_file filetype filepath ft fp) (candidate_set m ft fp))
unfolding add_candidate
add_candidate-extended m filetype filepath ft fp holder (throw e) = (refl, refl, refl)
add_candidate-extended m filetype filepath ft fp holder (ok c) =
    let m' = get_candidate_set m filetype filepath in
    let new = candidate_set m' filetype filepath ++ (c ∷ []) in
    (
      refl,
      refl,
      ground (
        arith,
        candidate_set-get_candidate_set m filetype filepath filetype filepath,
        candidate_set-get_candidate_set m filetype filepath ft fp,
        candidate_set-assign m' filetype filepath ft fp new,
        same_file-candidate_set m filetype filepath ft fp,
      ),
    )

bind_single :
    {A : Type 0} (d : Decoded A)
    → (d >>= λ y. ok [] >>= λ ys. ok (y ∷ ys)) ≡ (d >>= λ c. ok (c ∷ []))
bind_single (ok c) = refl
bind_single (throw e) = refl

map_decoded_single :
    {A B : Type 0} (f : A → Decoded B) (x : A) → map_decoded f (x ∷ []) ≡ (f x >>= λ c. ok (c ∷ []))
unfolding map_decoded
map_decoded_single f x = bind_single (f x)

module _ (std : Algorithms) (table : Table) where
  -- Every candidate of the repository is the one that its string makes.
  abbrev pub IsCached : Database → Type 0
  IsCached db = IsCache (make_candidate std table) db.candidate_repository

  pub get_candidates-map_decoded :
      (holder : Holder Candidate) (elements : List Bytes)
      → IsCache (make_candidate std table) holder
      → ((get_candidates std table holder elements).1
          ≡ map_decoded (make_candidate std table) (map clip elements))
        × IsCache (make_candidate std table) (get_candidates std table holder elements).0
  unfolding get_candidates
  get_candidates-map_decoded holder elements c =
      get_elements-map_decoded (make_candidate std table) holder (map clip elements) c

  -- `RecreateIdentifiers` for a file: it throws exactly when a candidate cannot be made. If none
  -- throws, the file's set is the new candidates, clipped and in order; otherwise it is as before;
  -- and every other file's set is as before. The repository stays a cache.
  pub recreate_identifiers_no_lock_lem :
      (db : Database) (new_candidates : List Bytes) (filetype filepath : Bytes)
      → IsCached db
      → let made = map_decoded (make_candidate std table) (map clip new_candidates) in
        let after = recreate_identifiers_no_lock std table db new_candidates filetype filepath in
        (after.1 ≡ (made >>= λ _. ok tt))
        × IsCached after.0
        × ((ft fp : Bytes)
            → candidate_set after.0.filetype_candidate_map ft fp
              ≡ replaced made
                  (same_file filetype filepath ft fp)
                  (candidate_set db.filetype_candidate_map ft fp))
  unfolding recreate_identifiers_no_lock
  recreate_identifiers_no_lock_lem db new_candidates filetype filepath cached =
      let got = get_candidates std table db.candidate_repository new_candidates in
      let m = get_candidate_set db.filetype_candidate_map filetype filepath in
      let (made, kept) = get_candidates-map_decoded db.candidate_repository new_candidates cached in
      let (done, held, _) = store_candidates-replaced m filetype filepath [] [] got in
      (
        done ∙ ap (λ d. d >>= λ _. ok tt) made,
        rw held kept,
        λ ft fp.
            (store_candidates-replaced m filetype filepath ft fp got).2
            ∙ rw (made, candidate_set-get_candidate_set),
      )

  -- `AddSingleIdentifier`: it throws exactly when the candidate cannot be made. Otherwise the
  -- clipped candidate is at the end of the file's set, unless its text was in the set already; and
  -- every other file's set is as before. The repository stays a cache.
  pub add_single_identifier_lem :
      (db : Database) (new_candidate filetype filepath : Bytes)
      → IsCached db
      → let made = make_candidate std table (clip new_candidate) in
        let after = add_single_identifier std table db new_candidate filetype filepath in
        (after.1 ≡ (made >>= λ _. ok tt))
        × IsCached after.0
        × ((ft fp : Bytes)
            → candidate_set after.0.filetype_candidate_map ft fp
              ≡ extended made
                  (same_file filetype filepath ft fp)
                  (candidate_set db.filetype_candidate_map ft fp))
  unfolding add_single_identifier
  add_single_identifier_lem db new_candidate filetype filepath cached =
      let m = db.filetype_candidate_map in
      let new = make_candidate std table (clip new_candidate) in
      let got = get_candidates std table db.candidate_repository (new_candidate ∷ []) in
      let (made, kept) =
        get_candidates-map_decoded db.candidate_repository (new_candidate ∷ []) cached in
      let whole : got ≡ (got.0, new >>= λ c. ok (c ∷ [])) = λ i.
        (got.0, (made ∙ map_decoded_single (make_candidate std table) (clip new_candidate)) i) in
      let (done, held, _) = add_candidate-extended m filetype filepath [] [] got.0 new in
      rw whole (
        done,
        rw held kept,
        λ ft fp. (add_candidate-extended m filetype filepath ft fp got.0 new).2,
      )
