-- ===== src/IdentifierDatabase/Store/Sound.antt =====
-- What the candidates in the sets are.
use ycmd_cpp.Base.{◌≤◌, ◌≡◌, refl, sym, ap, ◌∙◌, List, [], ◌∷◌, map, All, arith, Bytes, length}
use ycmd_cpp.CodePoint.{Table}
use ycmd_cpp.CodePoint.Decode.{Decoded, ok, throw, ◌>>=◌, map_decoded}
use ycmd_cpp.Std.{Algorithms}
use ycmd_cpp.Word.{make_word, break_into_characters}
use mathlib.Core.Path.{subst}
use ycmd_cpp.Candidate.{Candidate, make_candidate, from_word}
use ycmd_cpp.Repository.{Holder, clip}
use ycmd_cpp.Repository.Laws.{IsCache}
use ycmd_cpp.IdentifierDatabase.Store.{
  Database, get_candidates, recreate_identifiers_no_lock, add_single_identifier,
}
use ycmd_cpp.IdentifierDatabase.Store.Stored.{
  IfOk, AllStored, AllStored-get_candidate_set, AllStored-store_candidates, AllStored-add_candidate,
}
use ycmd_cpp.IdentifierDatabase.Store.Laws.{
  IsCached, get_candidates-map_decoded, recreate_identifiers_no_lock_lem, add_single_identifier_lem,
}

IfOk-cons :
    {A : Type 0} (P : A → Type 0) (d : Decoded A) (ds : Decoded (List A))
    → IfOk P d
    → IfOk (All P) ds
    → IfOk (All P) (d >>= λ y. ds >>= λ ys. ok (y ∷ ys))
IfOk-cons P (ok y) (ok ys) p ps = (p, ps)
IfOk-cons P (ok y) (throw e) p ps = tt
IfOk-cons P (throw e) ds p ps = tt

IfOk-map_decoded :
    {A B : Type 0} (P : B → Type 0) (f : A → Decoded B) (xs : List A)
    → All (λ x. IfOk P (f x)) xs
    → IfOk (All P) (map_decoded f xs)
unfolding map_decoded
IfOk-map_decoded P f [] h = tt
IfOk-map_decoded P f (x ∷ xs) (p, ps) =
    IfOk-cons P (f x) (map_decoded f xs) p (IfOk-map_decoded P f xs ps)

length-clip : (element : Bytes) → length (clip element) ≤ 80
unfolding clip
length-clip element = ground arith

IfOk-self : {A : Type 0} (P : A → Type 0) (d : Decoded A) → ((a : A) → d ≡ ok a → P a) → IfOk P d
IfOk-self P (ok a) h = h a refl
IfOk-self P (throw e) h = tt

IfOk-bind :
    {A B : Type 0} (P : A → Type 0) (Q : B → Type 0) (d : Decoded A) (f : A → Decoded B)
    → IfOk P d
    → ((a : A) → P a → IfOk Q (f a))
    → IfOk Q (d >>= f)
IfOk-bind P Q (ok a) f p h = h a p
IfOk-bind P Q (throw e) f p h = tt

All-map :
    {A B : Type 0} (P : B → Type 0) (f : A → B) (xs : List A)
    → ((x : A) → P (f x))
    → All P (map f xs)
All-map P f [] h = tt
All-map P f (x ∷ xs) h = (h x, All-map P f xs h)

-- The value, or another one.
from_ok : {A : Type 0} → A → Decoded A → A
from_ok other (ok a) = a
from_ok other (throw e) = other

ok_injective : {A : Type 0} {a b : A} → ok a ≡ ok b → a ≡ b
unfolding from_ok
ok_injective {A} {a} e = ap (from_ok a) e

module _ (std : Algorithms) (table : Table) where
  -- What its own text makes, of at most 80 bytes.
  abbrev pub IsMade : Candidate → Type 0
  IsMade c = (make_candidate std table c.text ≡ ok c) × (length c.text ≤ 80)

  -- The text tells such candidates apart.
  pub IsMade-text : (c d : Candidate) → IsMade c → IsMade d → c.text ≡ d.text → c ≡ d
  IsMade-text c d made made' e =
      ok_injective (sym made.0 ∙ ap (make_candidate std table) e ∙ made'.0)

  -- The repository is a cache, and so are the sets.
  abbrev pub IsSound : Database → Type 0
  IsSound db = IsCached std table db × AllStored IsMade db.filetype_candidate_map

  make_word-text : (text : Bytes) → IfOk (λ w. w.text ≡ text) (make_word std table text)
  unfolding make_word
  make_word-text text =
      IfOk-bind (λ _. Unit) (λ w. w.text ≡ text) (break_into_characters std table text) _
        (IfOk-self (λ _. Unit) (break_into_characters std table text) (λ _ _. tt)) (λ _ _. refl)

  pub make_candidate-text :
      (text : Bytes) → IfOk (λ c. c.text ≡ text) (make_candidate std table text)
  unfolding make_candidate from_word
  make_candidate-text text =
      IfOk-bind (λ w. w.text ≡ text) (λ c. c.text ≡ text) (make_word std table text) _
        (make_word-text text) (λ w e. e)

  make_candidate-IsMade :
      (text : Bytes) → length text ≤ 80 → IfOk IsMade (make_candidate std table text)
  make_candidate-IsMade text short = IfOk-self IsMade (make_candidate std table text) (λ c e.
      let same : c.text ≡ text = subst (IfOk (λ d. d.text ≡ text)) e (make_candidate-text text) in
      (ap (make_candidate std table) same ∙ e, rw same short))

  get_candidates-IsMade :
      (holder : Holder Candidate) (elements : List Bytes)
      → IsCache (make_candidate std table) holder
      → IfOk (All IsMade) (get_candidates std table holder elements).1
  get_candidates-IsMade holder elements cached =
      rw (get_candidates-map_decoded std table holder elements cached).0 (
        IfOk-map_decoded IsMade (make_candidate std table) (map clip elements)
          (All-map _ clip elements (λ x. make_candidate-IsMade (clip x) (length-clip x))))

  pub recreate_identifiers_no_lock-IsSound :
      (db : Database) (new_candidates : List Bytes) (filetype filepath : Bytes)
      → IsSound db
      → IsSound (recreate_identifiers_no_lock std table db new_candidates filetype filepath).0
  unfolding recreate_identifiers_no_lock
  recreate_identifiers_no_lock-IsSound db new_candidates filetype filepath (cached, all) = (
    (recreate_identifiers_no_lock_lem std table db new_candidates filetype filepath cached).1,
    AllStored-store_candidates IsMade _ filetype filepath _
        (get_candidates-IsMade db.candidate_repository new_candidates cached)
        (AllStored-get_candidate_set IsMade db.filetype_candidate_map filetype filepath all),
  )

  pub add_single_identifier-IsSound :
      (db : Database) (new_candidate filetype filepath : Bytes)
      → IsSound db
      → IsSound (add_single_identifier std table db new_candidate filetype filepath).0
  unfolding add_single_identifier
  add_single_identifier-IsSound db new_candidate filetype filepath (cached, all) = (
    (add_single_identifier_lem std table db new_candidate filetype filepath cached).1,
    AllStored-add_candidate IsMade _ filetype filepath _
        (get_candidates-IsMade db.candidate_repository (new_candidate ∷ []) cached) all,
  )
