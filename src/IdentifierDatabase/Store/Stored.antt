-- ===== src/IdentifierDatabase/Store/Stored.antt =====
-- Properties of every candidate of every set, and what the methods that add identifiers keep.
use ycmd_cpp.Base.{
  ◌≡◌, some, List, [], ◌∷◌, ◌++◌, All, arith, Bytes, bytes_eq, Dict, find, put, Bool-cases,
  Option-cases, inl, inr,
}
use ycmd_cpp.CodePoint.Decode.{Decoded, ok, throw}
use mathlib.Core.Path.{subst}
use ycmd_cpp.Candidate.{Candidate}
use mathlib.Core.Option.{some-injective, none-ne-some}
use ycmd_cpp.Repository.{Holder, try_emplace}
use ycmd_cpp.IdentifierDatabase.Store.{
  FiletypeCandidateMap, paths_of, candidate_set, get_candidate_set, assign, has_text,
  store_candidates, add_candidate,
}

-- The property holds of a value that is made.
abbrev pub IfOk : {A : Type 0} → (A → Type 0) → Decoded A → Type 0
IfOk P (ok a) = P a
IfOk P (throw e) = Unit

pub All-append :
    {A : Type 0} (P : A → Type 0) (xs ys : List A) → All P xs → All P ys → All P (xs ++ ys)
All-append P [] ys h k = k
All-append P (x ∷ xs) ys (p, h) k = (p, All-append P xs ys h k)

-- The property holds of every value of a map.
abbrev pub AllValues : {V : Type 0} → (V → Type 0) → Dict V → Type 0
AllValues P m = All (λ entry. P entry.1) m

AllValues-put :
    {V : Type 0} (P : V → Type 0) (k : Bytes) (v : V) (m : Dict V)
    → P v
    → AllValues P m
    → AllValues P (put k v m)
unfolding put
AllValues-put P k v [] new all = (new, tt)
AllValues-put P k v ((j, w) ∷ m) new (old, all) = elim (Bool-cases (bytes_eq j k)) [
  | inl hit ↦ rw hit (new, all)
  | inr miss ↦ rw miss (old, AllValues-put P k v m new all)
]

pub AllValues-find :
    {V : Type 0} (P : V → Type 0) (k : Bytes) (v : V) (m : Dict V)
    → find k m ≡ some v
    → AllValues P m
    → P v
unfolding find
AllValues-find P k v [] e all = absurd (none-ne-some v e)
AllValues-find P k v ((j, w) ∷ m) e (old, all) = elim (Bool-cases (bytes_eq j k)) [
  | inl hit ↦ subst P (some-injective w v (ground (arith, e, hit))) old
  | inr miss ↦ AllValues-find P k v m (ground (arith, e, miss)) all
]

AllValues-try_emplace :
    {V : Type 0} (P : V → Type 0) (k : Bytes) (v : V) (m : Dict V)
    → P v
    → AllValues P m
    → AllValues P (try_emplace k v m)
unfolding try_emplace
AllValues-try_emplace P k v m new all = elim (Option-cases (find k m)) [
  | inl e ↦ rw (try_emplace, e) (AllValues-put P k v m new all)
  | inr (w, e) ↦ rw (try_emplace, e) all
]

module _ (P : Candidate → Type 0) where
  -- The property holds of every candidate of every set.
  abbrev pub AllStored : FiletypeCandidateMap → Type 0
  AllStored m = AllValues (λ paths. AllValues (λ candidates. All P candidates) paths) m

  AllValues-paths_of :
      (m : FiletypeCandidateMap) (filetype : Bytes)
      → AllStored m
      → AllValues (λ candidates. All P candidates) (paths_of m filetype)
  AllValues-paths_of m filetype all = elim (Option-cases (find filetype m)) [
    | inl e ↦ rw (All, e) tt
    | inr (paths, e) ↦ rw (All, e) (AllValues-find _ filetype paths m e all)
  ]

  pub All-candidate_set :
      (m : FiletypeCandidateMap) (filetype filepath : Bytes)
      → AllStored m
      → All P (candidate_set m filetype filepath)
  unfolding candidate_set
  All-candidate_set m filetype filepath all =
      elim (Option-cases (find filepath (paths_of m filetype))) [
        | inl e ↦ rw (candidate_set, e) tt
        | inr (candidates, e) ↦
            rw (candidate_set, e)
              (AllValues-find _ filepath candidates _ e (AllValues-paths_of m filetype all))
      ]

  pub AllStored-get_candidate_set :
      (m : FiletypeCandidateMap) (filetype filepath : Bytes)
      → AllStored m
      → AllStored (get_candidate_set m filetype filepath)
  unfolding get_candidate_set
  AllStored-get_candidate_set m filetype filepath all =
      AllValues-put _ filetype _ m
        (AllValues-try_emplace _ filepath [] _ tt (AllValues-paths_of m filetype all)) all

  AllStored-assign :
      (m : FiletypeCandidateMap) (filetype filepath : Bytes) (candidates : List Candidate)
      → All P candidates
      → AllStored m
      → AllStored (assign m filetype filepath candidates)
  unfolding assign
  AllStored-assign m filetype filepath candidates new all =
      AllValues-put _ filetype _ m
        (AllValues-put _ filepath candidates _ new (AllValues-paths_of m filetype all)) all

  pub AllStored-store_candidates :
      (m : FiletypeCandidateMap) (filetype filepath : Bytes)
      (got : Holder Candidate × Decoded (List Candidate))
      → IfOk (All P) got.1
      → AllStored m
      → AllStored (store_candidates m filetype filepath got).0.filetype_candidate_map
  unfolding store_candidates
  AllStored-store_candidates m filetype filepath (holder, throw e) new all = all
  AllStored-store_candidates m filetype filepath (holder, ok candidates) new all =
      AllStored-assign m filetype filepath candidates new all

  pub AllStored-add_candidate :
      (m : FiletypeCandidateMap) (filetype filepath : Bytes)
      (got : Holder Candidate × Decoded (List Candidate))
      → IfOk (All P) got.1
      → AllStored m
      → AllStored (add_candidate m filetype filepath got).0.filetype_candidate_map
  unfolding add_candidate
  AllStored-add_candidate m filetype filepath (holder, throw e) new all = all
  AllStored-add_candidate m filetype filepath (holder, ok []) new all = all
  AllStored-add_candidate m filetype filepath (holder, ok (c ∷ cs)) (new, _) all =
      let m' = get_candidate_set m filetype filepath in
      let all' = AllStored-get_candidate_set m filetype filepath all in
      let current = candidate_set m' filetype filepath in
      elim (Bool-cases (has_text c.text current)) [
        | inl old ↦ rw (add_candidate, old) all'
        | inr fresh ↦
            rw (add_candidate, fresh)
              (AllStored-assign m' filetype filepath (current ++ (c ∷ []))
                (All-append P current (c ∷ []) (All-candidate_set m' filetype filepath all')
                  (new, tt))
                all')
      ]
