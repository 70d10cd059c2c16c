-- ===== src/Completers/Offered.antt =====
-- Which texts the completer of identifiers offers.
use ycmd_cpp.Base.{
  ℕ, ◌≡◌, refl, ap, ◌∙◌, Bool, ◌&&◌, ◌||◌, some, List, [], ◌∷◌, map, any, All, arith, ltb, length,
  Bytes, bytes_eq, bytes_eq_iff, find, Bool-cases, inl, inr,
}
use ycmd_cpp.Api
use ycmd_cpp.CodePoint.{Table}
use ycmd_cpp.CodePoint.Decode.{ok}
use ycmd_cpp.Std.{Algorithms, IsLawful}
use ycmd_cpp.Word.{Word, make_word}
use ycmd_cpp.Candidate.{Candidate}
use ycmd_cpp.IdentifierDatabase.Store.{Database, FilepathToCandidates}
use ycmd_cpp.IdentifierDatabase.Store.Sound.{IsMade, IsSound, IsMade-text}
use ycmd_cpp.IdentifierDatabase.Store.Stored.{AllValues, AllValues-find, All-append}
use ycmd_cpp.IdentifierDatabase.Search.{ranked_results, results_for_query_and_type}
use ycmd_cpp.IdentifierDatabase.Search.Laws.{all_candidates}
use ycmd_cpp.IdentifierDatabase.Search.Found.{is_hit_of, any-ranked_results}
use ycmd_cpp.Completers.{
  long_candidates, texts_of, long_of, candidates_for_query_and_type, compute_candidates,
}

-- Is the text one of those to insert?
abbrev pub is_offered : Bytes → List Api.Candidate → Bool
is_offered text = any (λ c. bytes_eq c.insertion_text text)

is_offered-long_candidates :
    (min_chars : ℕ) (text : Bytes) (texts : List Bytes)
    → is_offered text (long_candidates min_chars texts)
      ≡ (ltb min_chars (length text) && any (λ t. bytes_eq t text) texts)
unfolding long_candidates
is_offered-long_candidates min_chars text [] = ground arith
is_offered-long_candidates min_chars text (t ∷ texts) =
    let later = is_offered-long_candidates min_chars text texts in
    let same = bytes_eq_iff t text in
    elim (Bool-cases (ltb min_chars (length t))) [
      | inl long ↦ rw (long_candidates, long) (ground (arith, long, later, same))
      | inr short ↦ rw (long_candidates, short) (ground (arith, short, later, same))
    ]

any-map {ℓ κ} :
    {A : Type ℓ} {B : Type κ} (p : B → Bool) (f : A → B) (xs : List A)
    → any p (map f xs) ≡ any (λ x. p (f x)) xs
any-map p f [] = refl
any-map p f (x ∷ xs) = ap (λ b. p (f x) || b) (any-map p f xs)

All-all_candidates :
    (P : Candidate → Type 0) (paths : FilepathToCandidates)
    → AllValues (λ candidates. All P candidates) paths
    → All P (all_candidates paths)
unfolding all_candidates
All-all_candidates P [] all = tt
All-all_candidates P ((path, cs) ∷ paths) (new, all) =
    All-append P cs (all_candidates paths) new (All-all_candidates P paths all)

module _ (std : Algorithms) (table : Table) where
  compute_candidates_ranked :
      (db : Database) (min_chars : ℕ) (query_bytes filetype : Bytes) (paths : FilepathToCandidates)
      (query : Word)
      → find filetype db.filetype_candidate_map ≡ some paths
      → make_word std table query_bytes ≡ ok query
      → compute_candidates std table db min_chars query_bytes filetype
        ≡ ok (
            long_candidates min_chars
              (map (λ m. m.candidate.text) (ranked_results std query paths 0)))
  unfolding compute_candidates candidates_for_query_and_type texts_of long_of
  compute_candidates_ranked db min_chars query_bytes filetype paths query known word =
      rw (results_for_query_and_type, known, word) refl

  -- A search for identifiers of a type that some file has, by a query that is a word, succeeds. A text
  -- is offered if and only if it is longer than the number and is the text of a stored candidate of
  -- that type which the query hits.
  pub compute_candidates-is_offered :
      IsLawful std
      → (db : Database) (min_chars : ℕ) (query_bytes filetype : Bytes)
        (paths : FilepathToCandidates) (query : Word)
      → IsSound std table db
      → find filetype db.filetype_candidate_map ≡ some paths
      → make_word std table query_bytes ≡ ok query
      → (candidates : List Api.Candidate) × (compute_candidates std table db min_chars query_bytes
            filetype
          ≡ ok candidates)
        × ((text : Bytes)
            → is_offered text candidates
              ≡ (ltb min_chars (length text) && any (is_hit_of query text) (all_candidates paths)))
  compute_candidates-is_offered law db min_chars query_bytes filetype paths query sound known word =
      let results = ranked_results std query paths 0 in
      let texts = map (λ m. m.candidate.text) results in
      (
        long_candidates min_chars texts,
        compute_candidates_ranked db min_chars query_bytes filetype paths query known word,
        λ text.
            is_offered-long_candidates min_chars text texts
            ∙ ap (λ b. ltb min_chars (length text) && b)
                (any-map (λ t. bytes_eq t text) (λ m. m.candidate.text) results
                  ∙ any-ranked_results (IsMade std table) (IsMade-text std table) query text std law
                      paths
                      (All-all_candidates (IsMade std table) paths
                        (AllValues-find _ filetype paths db.filetype_candidate_map known sound.1))),
      )
