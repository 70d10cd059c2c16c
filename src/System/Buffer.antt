-- ===== src/System/Buffer.antt =====
-- From the identifiers of a buffer to the candidates of its file type.
use mathlib.Core.Path.{subst}
use ycmd_cpp.Base.{
  ◌≤◌, ◌≡◌, refl, ap, ◌∙◌, Bool, true, ◌||◌, some, List, [], ◌∷◌, ◌++◌, map, any, arith, length,
  Bytes, bytes_eq, bytes_eq_iff, bytes_eq_refl, find, Bool-cases, Option-cases, inl, inr,
}
use ycmd_cpp.CodePoint.Decode.{Decoded, ok, throw, ◌>>=◌, map_decoded}
use ycmd_cpp.CodePoint.{Table}
use ycmd_cpp.Std.{Algorithms}
use ycmd_cpp.Candidate.{Candidate, make_candidate}
use ycmd_cpp.Repository.{clip}
use ycmd_cpp.IdentifierDatabase.Store.{
  FiletypeCandidateMap, FilepathToCandidates, Database, recreate_identifiers_no_lock, candidate_set,
}
use ycmd_cpp.IdentifierDatabase.Store.Laws.{recreate_identifiers_no_lock_lem}
use ycmd_cpp.IdentifierDatabase.Store.Sound.{IsSound}
use ycmd_cpp.IdentifierDatabase.Store.Stored.{IfOk}
use ycmd_cpp.IdentifierDatabase.Search.Laws.{all_candidates}

any-append {ℓ} :
    {A : Type ℓ} (p : A → Bool) (xs ys : List A) → any p (xs ++ ys) ≡ (any p xs || any p ys)
any-append p [] ys = refl
any-append p (x ∷ xs) ys = rw (any-append p xs ys) (ground arith)

any-all_candidates :
    (q : Candidate → Bool) (paths : FilepathToCandidates) (filepath : Bytes) (cs : List Candidate)
    → find filepath paths ≡ some cs
    → any q cs ≡ true
    → any q (all_candidates paths) ≡ true
unfolding all_candidates find
any-all_candidates q [] filepath cs e h = ground (arith, e)
any-all_candidates q ((path, ds) ∷ paths) filepath cs e h =
    any-append q ds (all_candidates paths) ∙ elim (Bool-cases (bytes_eq path filepath)) [
      | inl hit ↦ let same : ds ≡ cs = ground (arith, e, hit) in rw (same, h) refl
      | inr miss ↦
          rw (any-all_candidates q paths filepath cs (ground (arith, e, miss)) h) (ground arith)
    ]

-- A set with a candidate is one of those of its file type.
pub any-candidate_set :
    (q : Candidate → Bool) (m : FiletypeCandidateMap) (filetype filepath : Bytes)
    → any q (candidate_set m filetype filepath) ≡ true
    → (paths : FilepathToCandidates) × (find filetype m ≡ some paths)
      × (any q (all_candidates paths) ≡ true)
unfolding candidate_set
any-candidate_set q m filetype filepath h = elim (Option-cases (find filetype m)) [
  | inl e ↦ ground (arith, e, h)
  | inr (paths, e) ↦ elim (Option-cases (find filepath paths)) [
    | inl f ↦ ground (arith, e, f, h)
    | inr (cs, f) ↦ (paths, e, any-all_candidates q paths filepath cs f (ground (arith, e, f, h)))
  ]
]

IfOk-any_now :
    (q : Candidate → Bool) (c : Candidate) (ds : Decoded (List Candidate))
    → q c ≡ true
    → IfOk (λ cs. any q cs ≡ true) (ds >>= λ ys. ok (c ∷ ys))
IfOk-any_now q c (ok ys) h = rw h refl
IfOk-any_now q c (throw e) h = tt

IfOk-any_later :
    (q : Candidate → Bool) (d : Decoded Candidate) (ds : Decoded (List Candidate))
    → IfOk (λ cs. any q cs ≡ true) ds
    → IfOk (λ cs. any q cs ≡ true) (d >>= λ y. ds >>= λ ys. ok (y ∷ ys))
IfOk-any_later q (ok y) (ok ys) h = rw h (ground arith)
IfOk-any_later q (ok y) (throw e) h = tt
IfOk-any_later q (throw e) ds h = tt

-- The search for an identifier among the candidates that a list of them makes.
any-map_decoded :
    (make : Bytes → Decoded Candidate) (q : Candidate → Bool) (identifier : Bytes) (c : Candidate)
    (identifiers : List Bytes)
    → make (clip identifier) ≡ ok c
    → q c ≡ true
    → any (λ i. bytes_eq i identifier) identifiers ≡ true
    → IfOk (λ cs. any q cs ≡ true) (map_decoded make (map clip identifiers))
unfolding map_decoded
any-map_decoded make q identifier c [] made h e = ground (arith, e)
any-map_decoded make q identifier c (i ∷ is) made h e = elim (Bool-cases (bytes_eq i identifier)) [
  | inl now ↦
      let here = ap (λ t. make (clip t)) ((bytes_eq_iff i identifier).0 now) ∙ made in
      rw here (IfOk-any_now q c (map_decoded make (map clip is)) h)
  | inr later ↦
      IfOk-any_later q (make (clip i)) (map_decoded make (map clip is))
        (any-map_decoded make q identifier c is made h (ground (arith, e, later)))
]

module _ (std : Algorithms) (table : Table) where
  -- The candidate sets after the identifiers are stored.
  pub stored-identifier :
      (db : Database) (identifiers : List Bytes) (filetype filepath identifier : Bytes)
      (candidates : List Candidate) (c : Candidate) (q : Candidate → Bool)
      → IsSound std table db
      → map_decoded (make_candidate std table) (map clip identifiers) ≡ ok candidates
      → any (λ i. bytes_eq i identifier) identifiers ≡ true
      → make_candidate std table (clip identifier) ≡ ok c
      → q c ≡ true
      → any q (
          candidate_set
            (recreate_identifiers_no_lock std table db identifiers filetype
              filepath).0.filetype_candidate_map
            filetype
            filepath)
        ≡ true
  stored-identifier db identifiers filetype filepath identifier candidates c q sound all has made
        h =
      let (_, _, sets) =
        recreate_identifiers_no_lock_lem std table db identifiers filetype filepath sound.0 in
      let found =
        any-map_decoded (make_candidate std table) q identifier c identifiers made h has in
      ap (any q) (sets filetype filepath)
      ∙ rw (all, bytes_eq_refl filetype, bytes_eq_refl filepath)
          (subst (IfOk (λ cs. any q cs ≡ true)) all found)

pub clip_short : (element : Bytes) → length element ≤ 80 → clip element ≡ element
unfolding clip
clip_short element short = ground (arith, short)
