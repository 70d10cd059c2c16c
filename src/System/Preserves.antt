-- ===== src/System/Preserves.antt =====
-- What an event and a completion keep: of the identifiers, and of the completer of clangd.
use mathlib.Core.Path.{subst}
use ycmd_cpp.Base.{
  ℕ, ◌≡◌, refl, Bool, Option, none, some, find, get_elem?, Bytes, Option-cases, inl, inr,
}
use ycmd_cpp.Api.{
  FileData, SimpleRequest, EventName, file_ready_to_parse, file_save, buffer_visit, buffer_unload,
  insert_leave, current_identifier_finished,
}
use ycmd_cpp.CodePoint.{Table}
use ycmd_cpp.Std.{Algorithms}
use ycmd_cpp.Identifiers.{
  Regexes, identifiers_from_buffer, identifier_under_cursor, identifier_before_cursor,
}
use ycmd_cpp.IdentifierDatabase.Store.{Database}
use ycmd_cpp.IdentifierDatabase.Store.Sound.{
  IsSound, recreate_identifiers_no_lock-IsSound, add_single_identifier-IsSound,
}
use ycmd_cpp.Request.{TextCoding, Wrapped}
use ycmd_cpp.Lsp.Types.{CompletionsResponse, ResponseMessage}
use ycmd_cpp.Clangd.Sync.Documents.{Documents, notify_all}
use ycmd_cpp.Clangd.Completion.{Completer, init}
use ycmd_cpp.Clangd.Completion.Synced.{
  IsRequest, IsSynced, init-IsSynced, handle_event_notification-IsSynced,
  compute_candidates-IsSynced,
}
use ycmd_cpp.Completers
use ycmd_cpp.Completers.{notify_file}
use ycmd_cpp.Handlers.Completions.{
  SemanticCompleterKind, clangd, jedi, no_kind, Server, fresh_completer, ensure_completer,
  notify_semantic, reply_kind,
}
use ycmd_cpp.Handlers.Completions.Laws.{Holds, Holds-bind}

module _ (std : Algorithms) (table : Table) where
  notify_file-IsSound :
      (regexes : Regexes) (db : Database) (event : EventName) (req : SimpleRequest)
      (file : FileData)
      → IsSound std table db
      → Holds (λ noted. IsSound std table noted.0) (notify_file std table regexes db event req file)
  unfolding notify_file
  notify_file-IsSound regexes db file_ready_to_parse req file sound =
      Holds-bind _ (identifiers_from_buffer regexes file) _ (λ identifiers.
        Holds-bind _ (get_elem? file.filetypes 0) _ (λ filetype.
          recreate_identifiers_no_lock-IsSound std table db identifiers filetype req.filepath
            sound))
  notify_file-IsSound regexes db file_save req file sound = sound
  notify_file-IsSound regexes db buffer_visit req file sound = sound
  notify_file-IsSound regexes db buffer_unload req file sound = sound
  notify_file-IsSound regexes db insert_leave req file sound =
      Holds-bind _ (identifier_under_cursor regexes req) _ (λ identifier.
        Holds-bind _ (get_elem? file.filetypes 0) _ (λ filetype.
          add_single_identifier-IsSound std table db identifier filetype req.filepath sound))
  notify_file-IsSound regexes db current_identifier_finished req file sound =
      Holds-bind _ (identifier_before_cursor regexes req) _ (λ identifier.
        Holds-bind _ (get_elem? file.filetypes 0) _ (λ filetype.
          add_single_identifier-IsSound std table db identifier filetype req.filepath sound))

  pub handle_event_notification-IsSound :
      (regexes : Regexes) (db : Database) (event : EventName) (req : SimpleRequest)
      → IsSound std table db
      → Holds
          (λ noted. IsSound std table noted.0)
          (Completers.handle_event_notification std table regexes db event req)
  unfolding Completers.handle_event_notification
  handle_event_notification-IsSound regexes db event req sound =
      Holds-bind _ (find req.filepath req.file_data) _
        (λ file. notify_file-IsSound regexes db event req file sound)

-- The completer, where it is there, and the documents.
abbrev pub AllSynced : (Bytes → ℕ) → Option Completer → Documents → Type 0
AllSynced xxh64 none documents = Unit
AllSynced xxh64 (some completer) documents = IsSynced xxh64 completer documents

pub notify_semantic-AllSynced :
    {R : Type 0} (xxh64 : Bytes → ℕ) (kind : SemanticCompleterKind) (server : Server)
    (event : EventName) (req : SimpleRequest) (response : ResponseMessage R) (docs : Documents)
    → IsRequest req
    → AllSynced xxh64 server.clangd_completer docs
    → (let sent = notify_semantic xxh64 kind server event req response in
        AllSynced xxh64 sent.0.clangd_completer (notify_all sent.1 docs))
unfolding notify_semantic notify_all ensure_completer
notify_semantic-AllSynced xxh64 clangd server event req response docs valid synced =
    elim (Option-cases server.clangd_completer) [
      | inl e ↦ rw e (
          handle_event_notification-IsSynced xxh64 (init fresh_completer response) event req docs
            valid (init-IsSynced xxh64 fresh_completer response docs refl))
      | inr (completer, e) ↦ rw e (
          handle_event_notification-IsSynced xxh64 completer event req docs valid
            (subst (λ c. AllSynced xxh64 c docs) e synced))
    ]
notify_semantic-AllSynced xxh64 jedi server event req response docs valid synced = synced
notify_semantic-AllSynced xxh64 no_kind server event req response docs valid synced = synced

pub reply_kind-AllSynced :
    (std : Algorithms) (table : Table) (regexes : Regexes) (coding : TextCoding) (xxh64 : Bytes → ℕ)
    (kind : SemanticCompleterKind) (server : Server) (req : SimpleRequest)
    (wrapped : Wrapped coding) (force_semantic : Bool)
    (response : ResponseMessage CompletionsResponse) (docs : Documents)
    → IsRequest req
    → AllSynced xxh64 server.clangd_completer docs
    → (let r =
          reply_kind std table regexes coding xxh64 kind server req wrapped force_semantic
            response in
        (r.server.database ≡ server.database)
        × AllSynced xxh64 r.server.clangd_completer (notify_all r.notifications docs))
unfolding reply_kind notify_all
reply_kind-AllSynced std table regexes coding xxh64 clangd server req wrapped force response docs
      valid synced =
    elim (Option-cases server.clangd_completer) [
      | inl e ↦ rw (reply_kind, e) (refl, rw e tt)
      | inr (completer, e) ↦
          rw (reply_kind, e)
            (
              refl,
              compute_candidates-IsSynced xxh64 completer req wrapped.column response docs valid
                  (subst (λ c. AllSynced xxh64 c docs) e synced),
            )
    ]
reply_kind-AllSynced std table regexes coding xxh64 jedi server req wrapped force response docs
      valid synced =
    (refl, synced)
reply_kind-AllSynced std table regexes coding xxh64 no_kind server req wrapped force response docs
      valid synced =
    (refl, synced)
