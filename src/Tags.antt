-- ===== src/Tags.antt =====
-- Tags files: `ExtractIdentifiersFromTagsFile` of src/core/IdentifierUtils.cpp. The lines of the file
-- are an argument, and so is what the file system makes of a path in it.
pub mod Laws
pub mod Stored
use Prim.Native.Char.{code}
use Prim.Native.String.{String}
use ycmd_cpp.Base.{
  ℕ, Bool, Option, none, some, List, [], ◌∷◌, ◌++◌, ◌>>=◌, ◌==◌, if◌then◌else◌, Bytes, Dict, find,
  put,
}
use ycmd_cpp.Utils.{find_with_default, lowercase}
use ycmd_cpp.Lsp.Reader.{split_at}
use ycmd_cpp.IdentifierDatabase.Store.{FilepathToIdentifiers, FiletypeIdentifierMap}

abbrev ascii_bytes : String → Bytes
ascii_bytes String.[] = []
ascii_bytes (String.◌∷◌ c s) = code c ∷ ascii_bytes s

-- LANG_TO_FILETYPE.
abbrev pub lang_to_filetype : List (Bytes × Bytes)
lang_to_filetype =
    (ascii_bytes "C#", ascii_bytes "cs")
    ∷ (ascii_bytes "C++", ascii_bytes "cpp")
    ∷ (ascii_bytes "gdbinit", ascii_bytes "gdb")
    ∷ (ascii_bytes "JavaProperties", ascii_bytes "jproperties")
    ∷ (ascii_bytes "ObjectiveC", ascii_bytes "objc")
    ∷ (ascii_bytes "PuppetManifest", ascii_bytes "puppet")
    ∷ (ascii_bytes "RelaxNG", ascii_bytes "rng")
    ∷ (ascii_bytes "reStructuredText", ascii_bytes "rst")
    ∷ (ascii_bytes "RpmSpec", ascii_bytes "spec")
    ∷ (ascii_bytes "SystemdUnit", ascii_bytes "systemd")
    ∷ []

-- "language:".
abbrev pub lang_str : Bytes
lang_str = ascii_bytes "language:"

-- What follows a text at the front, and what follows its first occurrence.
unfoldable pub drop_prefix : Bytes → Bytes → Option Bytes
drop_prefix [] s = some s
drop_prefix (p ∷ ps) [] = none
drop_prefix (p ∷ ps) (c ∷ s) = if p == c then drop_prefix ps s else none

unfoldable pub search : Bytes → Bytes → Option Bytes
unfolding drop_prefix
search pattern [] = drop_prefix pattern []
search pattern (c ∷ s) =
    let later = search pattern s in
    elim (drop_prefix pattern (c ∷ s)) [ none ↦ later | some rest ↦ some rest ]

-- The first position that is not a tab.
unfoldable pub skip_tabs : Bytes → Bytes
skip_tabs [] = []
skip_tabs (c ∷ s) = let rest = skip_tabs s in if c == b'\t' then rest else c ∷ s

-- A carriage return at the end of the line.
unfoldable pub drop_cr : Bytes → Bytes
drop_cr [] = []
drop_cr (c ∷ []) = if c == b'\r' then [] else c ∷ []
drop_cr (c ∷ d ∷ s) = c ∷ drop_cr (d ∷ s)

-- The text from a position that is inside the line: up to the next tab after it.
unfoldable pub field : Bytes → Option (Bytes × Bytes)
unfolding split_at
field [] = none
field (c ∷ s) = do parts ← split_at b'\t' s; some (c ∷ parts.0, parts.1)

-- The language: up to the next tab, or the end of the line.
unfoldable pub language_field : Bytes → Option Bytes
unfolding field drop_cr
language_field [] = none
language_field (c ∷ s) = elim (field (c ∷ s)) [
  | some parts ↦ some parts.0
  | none ↦ some (drop_cr (c ∷ s))
]

pub record Tag : Type 0 where
  pub identifier : Bytes
  pub path : Bytes
  pub language : Bytes

-- The body of the loop up to the last `continue`, at one line.
unfoldable pub parse_tag : Bytes → Option Tag
unfolding split_at skip_tabs field search language_field
parse_tag line = do
  id_parts ← split_at b'\t' line
  path_parts ← field (skip_tabs id_parts.1)
  lang_begin ← search lang_str path_parts.1
  language ← language_field lang_begin
  some (record { identifier = id_parts.0; path = path_parts.0; language = language })

unfoldable pub filetype_of : Bytes → Bytes
unfolding find_with_default lowercase
filetype_of language = find_with_default lang_to_filetype language (lowercase language)

-- The identifiers under a file type and a path; `operator[]` inserts what is missing.
abbrev pub paths_of : Bytes → FiletypeIdentifierMap → FilepathToIdentifiers
paths_of filetype m = elim (find filetype m) [ none ↦ [] | some paths ↦ paths ]

unfoldable pub stored : FiletypeIdentifierMap → Bytes → Bytes → List Bytes
unfolding find
stored m filetype path = elim (find path (paths_of filetype m)) [
  | none ↦ []
  | some identifiers ↦ identifiers
]

unfoldable pub emplace_back : FiletypeIdentifierMap → Bytes → Bytes → Bytes → FiletypeIdentifierMap
unfolding find put stored
emplace_back m filetype path identifier =
    put filetype (put path (stored m filetype path ++ (identifier ∷ [])) (paths_of filetype m)) m

unfoldable pub add_tag :
    (Bytes → Bytes) → Option Tag → FiletypeIdentifierMap → FiletypeIdentifierMap
unfolding filetype_of emplace_back
add_tag canonical none m = m
add_tag canonical (some tag) m =
    emplace_back m (filetype_of tag.language) (canonical tag.path) tag.identifier

unfoldable pub extract_identifiers :
    (Bytes → Bytes) → List Bytes → FiletypeIdentifierMap → FiletypeIdentifierMap
unfolding parse_tag add_tag
extract_identifiers canonical [] m = m
extract_identifiers canonical (line ∷ lines) m =
    extract_identifiers canonical lines (add_tag canonical (parse_tag line) m)
