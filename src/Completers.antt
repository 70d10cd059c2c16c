-- ===== src/Completers.antt =====
-- The completer of identifiers: src/completers/general/identifier_completer.cpp and
-- src/core/IdentifierCompleter.cpp, which it calls.
pub mod Offered
use ycmd_cpp.Base.{
  ℕ, Option, some, List, [], ◌∷◌, map, ◌>>=◌, if◌then◌else◌, ltb, Bytes, find, length, get_elem?,
}
use ycmd_cpp.Api
use ycmd_cpp.Api.{
  FileData, SimpleRequest, EventName, file_ready_to_parse, insert_leave,
  current_identifier_finished,
}
use ycmd_cpp.CodePoint.{Table}
use ycmd_cpp.CodePoint.Decode.{Decoded, ok, throw}
use ycmd_cpp.Std.{Algorithms}
use ycmd_cpp.Result.{Match}
use ycmd_cpp.IdentifierDatabase.Store.{
  Database, recreate_identifiers, recreate_identifiers_no_lock, add_single_identifier,
}
use ycmd_cpp.IdentifierDatabase.Search.{results_for_query_and_type}
use ycmd_cpp.Tags.{extract_identifiers}
use ycmd_cpp.Identifiers.{
  Regexes, identifiers_from_buffer, identifier_under_cursor, identifier_before_cursor,
}

-- "[ID]".
abbrev pub id_menu_info : Bytes
id_menu_info = b'[' ∷ b'I' ∷ b'D' ∷ b']' ∷ []

abbrev pub identifier_candidate : Bytes → Api.Candidate
identifier_candidate text = record (Api.insertion text) { extra_menu_info = some id_menu_info }

-- The loop of `compute_candiatdes`: only texts longer than the number are candidates.
unfoldable pub long_candidates : ℕ → List Bytes → List Api.Candidate
long_candidates min_chars [] = []
long_candidates min_chars (text ∷ texts) =
    let rest = long_candidates min_chars texts in
    if ltb min_chars (length text) then identifier_candidate text ∷ rest else rest

unfoldable pub texts_of : Decoded (List Match) → Decoded (List Bytes)
texts_of (throw e) = throw e
texts_of (ok results) = ok (map (λ m. m.candidate.text) results)

unfoldable pub long_of : ℕ → Decoded (List Bytes) → Decoded (List Api.Candidate)
unfolding long_candidates
long_of min_chars (throw e) = throw e
long_of min_chars (ok texts) = ok (long_candidates min_chars texts)

module _ (std : Algorithms) (table : Table) where
  -- `CandidatesForQueryAndType` of the core.
  unfoldable pub candidates_for_query_and_type : Database → Bytes → Bytes → ℕ → Decoded (List Bytes)
  unfolding texts_of results_for_query_and_type
  candidates_for_query_and_type db query filetype max_candidates =
      texts_of (results_for_query_and_type std table db query filetype max_candidates)

  -- `AddIdentifiersToDatabaseFromTagFiles`, for the lines of each file.
  unfoldable pub add_identifiers_to_database_from_tag_files :
      (Bytes → Bytes → Bytes) → Database → List (Bytes × List Bytes) → Database × Decoded (Unit {0})
  unfolding extract_identifiers recreate_identifiers
  add_identifiers_to_database_from_tag_files canonical db [] = (db, ok tt)
  add_identifiers_to_database_from_tag_files canonical db ((path, lines) ∷ files) =
      let (db', done) =
        recreate_identifiers std table db (extract_identifiers (canonical path) lines []) in
      let rest = add_identifiers_to_database_from_tag_files canonical db' files in
      elim done [ throw e ↦ (db', throw e) | ok _ ↦ rest ]

  unfoldable pub compute_candidates : Database → ℕ → Bytes → Bytes → Decoded (List Api.Candidate)
  unfolding long_of candidates_for_query_and_type
  compute_candidates db min_chars query_bytes filetype =
      long_of min_chars (candidates_for_query_and_type db query_bytes filetype 0)

  -- The event, at the file of the request and its first file type. Without the file `at` throws.
  unfoldable pub notify_file :
      Regexes
      → Database
      → EventName
      → SimpleRequest
      → FileData
      → Option (Database × Decoded (Unit {0}))
  unfolding identifiers_from_buffer identifier_under_cursor identifier_before_cursor
      recreate_identifiers_no_lock add_single_identifier
  notify_file regexes db file_ready_to_parse req file = do
    identifiers ← identifiers_from_buffer regexes file
    filetype ← get_elem? file.filetypes 0
    some (recreate_identifiers_no_lock std table db identifiers filetype req.filepath)
  notify_file regexes db insert_leave req file = do
    identifier ← identifier_under_cursor regexes req
    filetype ← get_elem? file.filetypes 0
    some (add_single_identifier std table db identifier filetype req.filepath)
  notify_file regexes db current_identifier_finished req file = do
    identifier ← identifier_before_cursor regexes req
    filetype ← get_elem? file.filetypes 0
    some (add_single_identifier std table db identifier filetype req.filepath)
  notify_file regexes db event req file = some (db, ok tt)

  unfoldable pub handle_event_notification :
      Regexes → Database → EventName → SimpleRequest → Option (Database × Decoded (Unit {0}))
  unfolding notify_file find
  handle_event_notification regexes db event req = do
    file ← find req.filepath req.file_data
    notify_file regexes db event req file
