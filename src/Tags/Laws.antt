-- ===== src/Tags/Laws.antt =====
-- How a line of a tags file is read.
use mathlib.Core.List.{append-nil}
use ycmd_cpp.Base.{
  ℕ, zero, suc, ◌≡◌, refl, ap, ◌∙◌, false, none, some, [], ◌∷◌, ◌++◌, arith, ◌==◌, Bytes,
}
use ycmd_cpp.Lsp.Reader.{split_at}
use ycmd_cpp.Lsp.Reader.Laws.{Lacks, split_at-append}
use ycmd_cpp.Tags.{
  lang_str, drop_prefix, search, skip_tabs, drop_cr, field, language_field, parse_tag,
}

drop_prefix-append : (p s : Bytes) → drop_prefix p (p ++ s) ≡ some s
unfolding drop_prefix
drop_prefix-append [] s = refl
drop_prefix-append (c ∷ p) s = ground (arith, drop_prefix-append p s)

-- The pattern does not occur at a position inside of the text that stands before `rest`.
abbrev pub Unseen : Bytes → Bytes → Bytes → Type 0
Unseen pattern [] rest = Unit
Unseen pattern (c ∷ s) rest = (drop_prefix pattern ((c ∷ s) ++ rest) ≡ none) × Unseen pattern s rest

search-append :
    (p : ℕ) (ps s rest : Bytes)
    → Unseen (p ∷ ps) s ((p ∷ ps) ++ rest)
    → search (p ∷ ps) (s ++ ((p ∷ ps) ++ rest)) ≡ some rest
unfolding search
search-append p ps [] rest h = rw (search, drop_prefix-append (p ∷ ps) rest) refl
search-append p ps (c ∷ s) rest (here, later) = rw (search, here) (search-append p ps s rest later)

field-append :
    (c : ℕ) (s rest : Bytes)
    → Lacks b'\t' s
    → field ((c ∷ s) ++ (b'\t' ∷ rest)) ≡ some (c ∷ s, rest)
unfolding field
field-append c s rest h = rw (split_at-append b'\t' s rest h) refl

split_at-Lacks : (mark : ℕ) (s : Bytes) → Lacks mark s → split_at mark s ≡ none
unfolding split_at
split_at-Lacks mark [] h = refl
split_at-Lacks mark (c ∷ s) (h, hs) = ground (arith, split_at-Lacks mark s hs)

drop_cr-append : (s : Bytes) → drop_cr (s ++ (b'\r' ∷ [])) ≡ s
unfolding drop_cr
drop_cr-append [] = refl
drop_cr-append (c ∷ []) = refl
drop_cr-append (c ∷ d ∷ s) = ap (◌∷◌ c) (drop_cr-append (d ∷ s))

drop_cr-Lacks : (s : Bytes) → Lacks b'\r' s → drop_cr s ≡ s
unfolding drop_cr
drop_cr-Lacks [] h = refl
drop_cr-Lacks (c ∷ []) (h, _) = rw h refl
drop_cr-Lacks (c ∷ d ∷ s) (h, hs) = ap (◌∷◌ c) (drop_cr-Lacks (d ∷ s) hs)

-- What may follow a language: another field, or the end of the line in either style.
pub data Ending : Bytes → Type 0 where
  more : (fields : Bytes) → Ending (b'\t' ∷ fields)
  end_of_line : Ending []
  carriage_return : Ending (b'\r' ∷ [])

language_field-some :
    (c : ℕ) (s : Bytes) (parts : Bytes × Bytes)
    → field (c ∷ s) ≡ some parts
    → language_field (c ∷ s) ≡ some parts.0
unfolding language_field
language_field-some c s parts e = rw (language_field, e) refl

language_field-none :
    (c : ℕ) (s : Bytes) → Lacks b'\t' s → language_field (c ∷ s) ≡ some (drop_cr (c ∷ s))
unfolding language_field
language_field-none c s h =
    let none_left : field (c ∷ s) ≡ none = unfold field in rw (split_at-Lacks b'\t' s h) refl in
    rw (language_field, none_left) refl

Lacks-carriage_return : (s : Bytes) → Lacks b'\t' s → Lacks b'\t' (s ++ (b'\r' ∷ []))
Lacks-carriage_return [] h = (refl, tt)
Lacks-carriage_return (c ∷ s) (h, hs) = (h, Lacks-carriage_return s hs)

language_field_lem :
    (c : ℕ) (s ending : Bytes)
    → Ending ending
    → Lacks b'\t' s
    → Lacks b'\r' (c ∷ s)
    → language_field ((c ∷ s) ++ ending) ≡ some (c ∷ s)
language_field_lem c s _ (more fields) h k =
    language_field-some c (s ++ (b'\t' ∷ fields)) (c ∷ s, fields) (field-append c s fields h)
language_field_lem c s _ end_of_line h k =
    rw append-nil (language_field-none c s h ∙ ap some (drop_cr-Lacks (c ∷ s) k))
language_field_lem c s _ carriage_return h k =
    language_field-none c (s ++ (b'\r' ∷ [])) (Lacks-carriage_return s h)
    ∙ ap some (drop_cr-append (c ∷ s))

skip_tabs_keep : (c : ℕ) (s : Bytes) → (c == b'\t') ≡ false → skip_tabs (c ∷ s) ≡ c ∷ s
unfolding skip_tabs
skip_tabs_keep c s h = rw (skip_tabs, h) refl

abbrev pub tabs : ℕ → Bytes → Bytes
tabs zero s = s
tabs (suc n) s = b'\t' ∷ tabs n s

skip_tabs-tabs : (n : ℕ) (s : Bytes) → skip_tabs (tabs n s) ≡ skip_tabs s
unfolding skip_tabs
skip_tabs-tabs zero s = refl
skip_tabs-tabs (suc n) s = skip_tabs-tabs n s

-- A line with an identifier, one tab or more, a path, and other fields among which the first occurrence of
-- "language:" stands before the language gives these three.
pub parse_tag_lem :
    (identifier : Bytes) (n p : ℕ) (path fields : Bytes) (c : ℕ) (language ending : Bytes)
    → Lacks b'\t' identifier
    → (p == b'\t') ≡ false
    → Lacks b'\t' path
    → Unseen lang_str fields (lang_str ++ ((c ∷ language) ++ ending))
    → Ending ending
    → Lacks b'\t' language
    → Lacks b'\r' (c ∷ language)
    → parse_tag (
        identifier
        ++ (b'\t'
            ∷ tabs n
                ((p ∷ path) ++ (b'\t' ∷ (fields ++ (lang_str ++ ((c ∷ language) ++ ending)))))))
      ≡ some (record { identifier = identifier; path = p ∷ path; language = c ∷ language })
unfolding parse_tag
parse_tag_lem identifier n p path fields c language ending hi hp hq unseen ends ht hr =
    let after_path = fields ++ (lang_str ++ ((c ∷ language) ++ ending)) in
    rw
      (
        parse_tag,
        split_at-append b'\t' identifier (tabs n ((p ∷ path) ++ (b'\t' ∷ after_path))) hi,
        skip_tabs-tabs n ((p ∷ path) ++ (b'\t' ∷ after_path)),
        skip_tabs_keep p (path ++ (b'\t' ∷ after_path)) hp,
        field-append p path after_path hq,
        search-append b'l' _ fields ((c ∷ language) ++ ending) unseen,
        language_field_lem c language ending ends ht hr,
      )
      refl
