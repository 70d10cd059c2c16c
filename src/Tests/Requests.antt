-- ===== src/Tests/Requests.antt =====
-- Files, identifiers and queries at concrete inputs.
use mathlib.Core.Option.{some-injective, none-ne-some}
use ycmd_cpp.Base.{
  ap, Bytes, ◌==◌, Bool-cases, inl, inr, bytes_eq, sym, ◌∙◌, ℕ, suc, ◌≤◌, ◌<◌, ◌≡◌, refl, Bool,
  true, false, none, some, List, [], ◌∷◌, ◌++◌, arith, leb, if◌then◌else◌, Dict, find, length,
}
use ycmd_cpp.Api.{FileData}
use ycmd_cpp.Clangd.Sync.{File, uri, sync_files}
use ycmd_cpp.Clangd.Sync.Laws.{IsMap}
use ycmd_cpp.Clangd.Sync.Documents.{Documents, notify_all}
use ycmd_cpp.Clangd.Sync.Requested.{text_of, asked, IsToldApart, text_of-notify_all-sync_files}
use ycmd_cpp.Clangd.Sync.Consistency.{IsConsistent, sync_files-IsConsistent}
use ycmd_cpp.Identifiers.{Match, between, start_of_longest_identifier_ending_at}
use ycmd_cpp.Identifiers.Laws.{
  SplitAt, SuffixesMatch, under_cursor_lem, start_of_longest_identifier_ending_at_lem,
}
use ycmd_cpp.Request.{TextCoding, Line, start_column, query, query_bytes}
use ycmd_cpp.Request.Laws.{query-query_bytes}
use ycmd_cpp.Tests.Data.{codes}

-- A file that is open and has changed, and one that is not open.
abbrev opened : Dict File
opened = (codes "/a", record { version = 3; hash = 1 }) ∷ []

abbrev file_data : Dict FileData
file_data =
    (codes "/a", record { filetypes = codes "cpp" ∷ []; contents = codes "xy" })
    ∷ (codes "/b", record { filetypes = codes "cpp" ∷ []; contents = codes "z" })
    ∷ []

file_data-IsMap : IsMap file_data
unfolding find bytes_eq
file_data-IsMap = (refl, (refl, tt))

abbrev documents : Documents
documents _ = some (3, codes "x")

opened-IsConsistent : IsConsistent length opened documents
unfolding find
opened-IsConsistent name f e = elim (Bool-cases (bytes_eq (codes "/a") name)) [
  | inl hit ↦
      (let old : File = record { version = 3; hash = 1 } in
        let p : find name opened ≡ some old = rw (find, hit) refl in
        rw (sym (some-injective old f (sym p ∙ e))) (codes "x", refl, refl))
  | inr miss ↦
      (let p : find name opened ≡ none = rw (find, miss) refl in
        elim (none-ne-some f (sym p ∙ e)) [ ])
]

sync_files-IsConsistent_example :
    IsConsistent length
      (sync_files length opened file_data).0
      (notify_all (sync_files length opened file_data).1 documents)
sync_files-IsConsistent_example =
    sync_files-IsConsistent length opened file_data documents file_data-IsMap (refl, (refl, tt))
      (refl, tt) opened-IsConsistent

a-IsToldApart : IsToldApart length (find (codes "/a") file_data) (documents (uri (codes "/a")))
unfolding find bytes_eq
a-IsToldApart d old requested had same =
    let new_length = ap (λ (f : FileData). length f.contents) (some-injective _ d requested) in
    let old_length = ap (λ (doc : ℕ × Bytes). length doc.1) (some-injective _ old had) in
    absurd (omega (arith, new_length, old_length, same))

text_of-notify_all-sync_files_example :
    text_of (notify_all (sync_files length opened file_data).1 documents (uri (codes "/a")))
    ≡ asked (find (codes "/a") file_data) (text_of (documents (uri (codes "/a"))))
text_of-notify_all-sync_files_example =
    text_of-notify_all-sync_files length opened file_data documents (codes "/a") file_data-IsMap
      (refl, (refl, tt)) (refl, tt) opened-IsConsistent a-IsToldApart

-- The matches of "foo bar".
abbrev foo_and_bar : List Match
foo_and_bar =
    record { position = 0; str = codes "foo" } ∷ record { position = 4; str = codes "bar" } ∷ []

under_cursor_example : SplitAt 3 [] foo_and_bar
under_cursor_example = under_cursor_lem 3 0 [] foo_and_bar (omega arith, (omega arith, tt))

-- Letters only.
abbrev pub is_word : List ℕ → Bool
is_word [] = true
is_word (c ∷ cs) = if leb b'a' c then is_word cs else false

start_of_longest_identifier_ending_at_example :
    (start : ℕ) × (start_of_longest_identifier_ending_at 4 is_word (codes "a b") ≡ some start)
    × (1 ≤ start)
    × (start ≤ 4)
    × ((i : ℕ) → start ≤ suc i → i < 3 → is_word (between i 3 (codes "a b")) ≡ true)
    × (SuffixesMatch is_word 3 (codes "a b")
        → (i : ℕ) → i < 3
        → is_word (between i 3 (codes "a b")) ≡ true
        → start ≤ suc i)
start_of_longest_identifier_ending_at_example =
    start_of_longest_identifier_ending_at_lem 3 is_word (codes "a b")

-- ASCII, and the line "a bc" with its end.
abbrev pub ascii : TextCoding
ascii = record { decode = λ s. s; encoded = λ c. c ∷ [] }

abbrev a_bc : Line
a_bc = record { memory = codes "a bc" ++ (0 ∷ []); size = 4 }

-- A line with a code point of two bytes, before which the cursor stands: `decode` knows this line.
abbrev two_bytes : TextCoding
two_bytes = record {
  decode = λ s. 233 ∷ [];
  encoded = λ c. if c == 233 then 195 ∷ 169 ∷ [] else c ∷ [];
}

abbrev e_acute : Line
e_acute = record { memory = 195 ∷ 169 ∷ 0 ∷ []; size = 2 }

query-query_bytes_example :
    (query two_bytes e_acute 1 1 ≡ some [])
    × (start_column two_bytes e_acute 1 ≡ 2)
    × (length (two_bytes.encoded 233) ≡ 1 → query_bytes two_bytes e_acute 1 1 ≡ some [])
    × (1 < 2 → 2 ≤ 2 → query_bytes two_bytes e_acute 1 1 ≡ some (169 ∷ []))
query-query_bytes_example =
    query-query_bytes two_bytes e_acute [] [] (233 ∷ []) refl refl (omega arith) (omega arith)
