-- ===== src/Tags/Stored.antt =====
-- Which identifiers a tags file stores, and where.
use mathlib.Core.List.{append-nil, append_assoc}
use ycmd_cpp.Base.{
  ◌≡◌, refl, ◌∙◌, ◌&&◌, Option, none, some, List, [], ◌∷◌, ◌++◌, map, arith, if◌then◌else◌, Bytes,
  bytes_eq, bytes_eq_iff, put, find-put, Bool-cases, inl, inr,
}
use ycmd_cpp.IdentifierDatabase.Store.{FiletypeIdentifierMap}
use ycmd_cpp.Tags.{
  Tag, parse_tag, filetype_of, paths_of, stored, emplace_back, add_tag, extract_identifiers,
}

stored-emplace_back :
    (m : FiletypeIdentifierMap) (filetype path identifier ft fp : Bytes)
    → stored (emplace_back m filetype path identifier) ft fp ≡ (
        if bytes_eq filetype ft && bytes_eq path fp
        then stored m ft fp ++ (identifier ∷ [])
        else stored m ft fp)
unfolding stored emplace_back
stored-emplace_back m filetype path identifier ft fp = ground (
  arith,
  find-put filetype ft
      (put path (stored m filetype path ++ (identifier ∷ [])) (paths_of filetype m)) m,
  find-put path fp (stored m filetype path ++ (identifier ∷ [])) (paths_of filetype m),
  bytes_eq_iff filetype ft,
  bytes_eq_iff path fp,
)

-- The identifiers of the tags for a file type and a path, in order.
unfoldable pub identifiers_at : (Bytes → Bytes) → Bytes → Bytes → List (Option Tag) → List Bytes
identifiers_at canonical ft fp [] = []
identifiers_at canonical ft fp (none ∷ tags) = identifiers_at canonical ft fp tags
identifiers_at canonical ft fp (some tag ∷ tags) =
    let rest = identifiers_at canonical ft fp tags in
    if bytes_eq (filetype_of tag.language) ft && bytes_eq (canonical tag.path) fp
    then tag.identifier ∷ rest
    else rest

stored-add_tag :
    (canonical : Bytes → Bytes) (tag : Option Tag) (tags : List (Option Tag))
    (m : FiletypeIdentifierMap) (ft fp : Bytes)
    → stored (add_tag canonical tag m) ft fp ++ identifiers_at canonical ft fp tags
      ≡ stored m ft fp ++ identifiers_at canonical ft fp (tag ∷ tags)
unfolding add_tag identifiers_at
stored-add_tag canonical none tags m ft fp = refl
stored-add_tag canonical (some tag) tags m ft fp =
    let added =
      stored-emplace_back m (filetype_of tag.language) (canonical tag.path) tag.identifier ft fp in
    elim (Bool-cases (bytes_eq (filetype_of tag.language) ft && bytes_eq (canonical tag.path) fp)) [
      | inl here ↦
          rw (added, here)
            (append_assoc (stored m ft fp) (tag.identifier ∷ [])
              (identifiers_at canonical ft fp tags))
      | inr elsewhere ↦ rw (added, elsewhere) refl
    ]

-- Reading the lines appends, under each file type and path, the identifiers of the tags for them in
-- the order of the lines; lines that are no tags add nothing.
pub stored-extract_identifiers :
    (canonical : Bytes → Bytes) (lines : List Bytes) (m : FiletypeIdentifierMap) (ft fp : Bytes)
    → stored (extract_identifiers canonical lines m) ft fp
      ≡ stored m ft fp ++ identifiers_at canonical ft fp (map parse_tag lines)
unfolding extract_identifiers
stored-extract_identifiers canonical [] m ft fp = unfold identifiers_at in rw append-nil
stored-extract_identifiers canonical (line ∷ lines) m ft fp =
    stored-extract_identifiers canonical lines (add_tag canonical (parse_tag line) m) ft fp
    ∙ stored-add_tag canonical (parse_tag line) (map parse_tag lines) m ft fp
