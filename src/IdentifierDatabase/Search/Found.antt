-- ===== src/IdentifierDatabase/Search/Found.antt =====
-- Which texts a search finds.
use mathlib.Core.List.{Perm, Permᴰ, append-nil}
use mathlib.Core.Logic.{∥∥₁_elim}
use mathlib.Core.Bool.{Bool-set}
use ycmd_cpp.Base.{
  ◌≡◌, refl, sym, ap, ◌∙◌, Bool, true, false, not, ◌&&◌, ◌||◌, Option, none, some, List, [], ◌∷◌,
  ◌++◌, ℕ, length, length-append, ltb, All, arith, any, Bytes, bytes_eq, bytes_eq_iff, Bool-cases,
  inl, inr,
}
use ycmd_cpp.Word.{Word, is_empty, contains_bytes}
use ycmd_cpp.Character.{Character}
use ycmd_cpp.Candidate.{Candidate}
use ycmd_cpp.Result.{Match, is_subsequence, make_result}
use ycmd_cpp.Query.{query_match_result, match_characters, loop_result}
use ycmd_cpp.Std.{Algorithms, IsLawful}
use ycmd_cpp.Utils.Laws.{Perm-length}
use ycmd_cpp.IdentifierDatabase.Store.{FilepathToCandidates}
use ycmd_cpp.IdentifierDatabase.Search.{ranked_results}
use ycmd_cpp.IdentifierDatabase.Search.Laws.{
  ranked_results_lem, all_candidates, distinct, hit, hits, as_option, prepend_some,
}

-- Does the query match the candidate, by the tests of the loop?
abbrev pub is_hit : Word → Candidate → Bool
is_hit query c =
    not (is_empty c.word || not (contains_bytes c.word query))
    && is_subsequence (query_match_result c query)

abbrev pub is_hit_of : Word → Bytes → Candidate → Bool
is_hit_of query text c = is_hit query c && bytes_eq c.text text

make_result-candidate :
    (c : Candidate) (query : Word) (sum : ℕ) (prefix : Bool)
    → (make_result c query sum prefix).candidate ≡ c
unfolding make_result
make_result-candidate c query sum prefix = ground arith

abbrev of_text : Bytes → Option Match → Bool
of_text text none = false
of_text text (some m) = bytes_eq m.candidate.text text

loop_result-of_text :
    (text : Bytes) (c : Candidate) (query : Word) (found : Option (ℕ × Bool))
    → of_text text (as_option (loop_result c query found))
      ≡ (is_subsequence (loop_result c query found) && bytes_eq c.text text)
unfolding loop_result is_subsequence as_option
loop_result-of_text text c query none = refl
loop_result-of_text text c query (some (sum, prefix)) =
    ap (λ d. bytes_eq d.text text) (make_result-candidate c query sum prefix)

match_characters-of_text :
    (text : Bytes) (c : Candidate) (query : Word) (qs : List Character)
    → of_text text (as_option (match_characters c query qs))
      ≡ (is_subsequence (match_characters c query qs) && bytes_eq c.text text)
unfolding match_characters is_subsequence as_option
match_characters-of_text text c query [] =
    ap (λ d. bytes_eq d.text text) (make_result-candidate c query 0 false)
match_characters-of_text text c query (q ∷ qs) =
    elim (Bool-cases (ltb (length c.characters) (length query.characters))) [
      | inl short ↦ rw (match_characters, short) refl
      | inr long ↦ rw (match_characters, long) (loop_result-of_text text c query _)
    ]

of_text-hit :
    (text : Bytes) (c : Candidate) (query : Word)
    → of_text text (hit query c) ≡ is_hit_of query text c
unfolding hit query_match_result match_characters
of_text-hit text c query =
    elim (Bool-cases (is_empty c.word || not (contains_bytes c.word query))) [
      | inl skip ↦ rw (hit, skip) refl
      | inr test ↦
          rw (hit, test, query_match_result)
            (match_characters-of_text text c query query.characters)
    ]

any-prepend_some :
    (text : Bytes) (o : Option Match) (ms : List Match)
    → any (λ m. bytes_eq m.candidate.text text) (prepend_some o ms)
      ≡ (of_text text o || any (λ m. bytes_eq m.candidate.text text) ms)
any-prepend_some text none ms = refl
any-prepend_some text (some m) ms = refl

any-hits :
    (query : Word) (text : Bytes) (cs : List Candidate)
    → any (λ m. bytes_eq m.candidate.text text) (hits query cs) ≡ any (is_hit_of query text) cs
unfolding hits
any-hits query text [] = refl
any-hits query text (c ∷ cs) =
    any-prepend_some text (hit query c) (hits query cs)
    ∙ rw (of_text-hit text c query, any-hits query text cs) refl

any-Permᴰ {ℓ} : {A : Type ℓ} (p : A → Bool) {xs ys : List A} → Permᴰ xs ys → any p xs ≡ any p ys
any-Permᴰ p Permᴰ.nil = refl
any-Permᴰ p (Permᴰ.cons e same) = rw (e, any-Permᴰ p same) refl
any-Permᴰ p (Permᴰ.swap e f) = rw (e, f) (ground arith)
any-Permᴰ p (Permᴰ.trans first second) = any-Permᴰ p first ∙ any-Permᴰ p second

pub any-Perm {ℓ} : {A : Type ℓ} (p : A → Bool) (xs ys : List A) → Perm xs ys → any p xs ≡ any p ys
any-Perm p xs ys same = ∥∥₁_elim same (Bool-set _ _) (any-Permᴰ p)

any-append_empty {ℓ} :
    {A : Type ℓ} (p : A → Bool) (xs ys : List A) → length ys ≡ 0 → any p (xs ++ ys) ≡ any p xs
any-append_empty p xs [] e = rw append-nil refl
any-append_empty p xs (y ∷ ys) e = absurd (omega (arith, e))

module _ (P : Candidate → Type 0) (same : (c d : Candidate) → P c → P d → c.text ≡ d.text → c ≡ d)
    (query : Word) (text : Bytes) where
  -- All candidates with a text are hit or none is.
  is_hit-any :
      (c : Candidate) (cs : List Candidate)
      → P c
      → All P cs
      → c.text ≡ text
      → any (is_hit_of query text) cs ≡ true
      → is_hit query c ≡ true
  is_hit-any c [] p all e h = ground (arith, h)
  is_hit-any c (d ∷ cs) p (q, all) e h = elim (Bool-cases (is_hit_of query text d)) [
    | inl now ↦
        let alike = same c d p q (e ∙ sym ((bytes_eq_iff d.text text).0 (ground (arith, now)))) in
        ap (is_hit query) alike ∙ ground (arith, now)
    | inr later ↦ is_hit-any c cs p all e (ground (arith, h, later))
  ]

  seen-text :
      (seen : List Bytes) (c : Candidate)
      → bytes_eq c.text text ≡ true
      → any (λ s. bytes_eq s c.text) seen ≡ any (λ s. bytes_eq s text) seen
  seen-text seen c e = ap (λ t. any (λ s. bytes_eq s t) seen) ((bytes_eq_iff c.text text).0 e)

  any-distinct :
      (seen : List Bytes) (cs : List Candidate)
      → All P cs
      → any (is_hit_of query text) (distinct seen cs)
        ≡ (not (any (λ s. bytes_eq s text) seen) && any (is_hit_of query text) cs)
  unfolding distinct
  any-distinct seen [] all = ground arith
  any-distinct seen (c ∷ cs) (p, all) =
      let known = seen-text seen c in
      elim (Bool-cases (any (λ s. bytes_eq s c.text) seen)) [
        | inl old ↦ rw (distinct, old) (any-distinct seen cs all ∙ ground (arith, known, old))
        | inr new ↦
            rw (distinct, new, any-distinct (c.text ∷ seen) cs all)
              (elim (Bool-cases (bytes_eq c.text text)) [
                | inl hit ↦
                    let alike = is_hit-any c cs p all ((bytes_eq_iff c.text text).0 hit) in
                    ground (arith, known, new, hit, alike)
                | inr miss ↦ ground (arith, miss)
              ])
      ]

  -- Where all results are asked for, a text is among them if and only if it is the text of a candidate
  -- that the query hits.
  pub any-ranked_results :
      (std : Algorithms)
      → IsLawful std
      → (paths : FilepathToCandidates) → All P (all_candidates paths)
      → any (λ m. bytes_eq m.candidate.text text) (ranked_results std query paths 0)
        ≡ any (is_hit_of query text) (all_candidates paths)
  any-ranked_results std law paths all =
      let found = hits query (distinct [] (all_candidates paths)) in
      let out = ranked_results std query paths 0 in
      let (dropped, size, perm, _, _) = ranked_results_lem std law query paths 0 in
      let is_text = λ (m : Match). bytes_eq m.candidate.text text in
      sym (
        any-append_empty is_text out dropped
          (omega (arith, size, Perm-length perm, length-append out dropped)))
      ∙ any-Perm is_text (out ++ dropped) found perm
      ∙ any-hits query text (distinct [] (all_candidates paths))
      ∙ any-distinct [] (all_candidates paths) all
