-- ===== src/Clangd/Completion/Synced.antt =====
-- The completer against the documents that the language server has.
use ycmd_cpp.Base.{ℕ, ◌≡◌, sym, ◌∙◌, true, false, [], Bytes, Dict, arith, Bool-cases, inl, inr}
use mathlib.Core.Bool.{false≢true}
use ycmd_cpp.Api.{
  SimpleRequest, EventName, file_ready_to_parse, file_save, buffer_visit, buffer_unload,
  insert_leave, current_identifier_finished,
}
use ycmd_cpp.Lsp.Types.{CompletionsResponse, ResponseMessage}
use ycmd_cpp.Clangd.Sync.{File, sync_files}
use ycmd_cpp.Clangd.Sync.Laws.{IsMap}
use ycmd_cpp.Clangd.Sync.Documents.{Documents, AllAbsolute, notify_all}
use ycmd_cpp.Clangd.Sync.Consistency.{
  IsConsistent, sync_files-IsConsistent, nil-IsConsistent, AllAbsolute-sync_files,
}
use ycmd_cpp.Clangd.Completion.{Completer, init, handle_event_notification, compute_candidates}

-- Each file once, by an absolute path.
abbrev pub IsRequest : SimpleRequest → Type 0
IsRequest req = IsMap req.file_data × AllAbsolute req.file_data

module _ (xxh64 : Bytes → ℕ) where
  -- Every file that is open is a document of the server, under its version; and none is open before
  -- the initialisation.
  abbrev pub IsSynced : Completer → Documents → Type 0
  IsSynced completer docs =
      AllAbsolute completer.opened_files
      × IsConsistent xxh64 completer.opened_files docs
      × (completer.initialised ≡ false → completer.opened_files ≡ [])

  init-opened_files :
      {R : Type 0} (completer : Completer) (response : ResponseMessage R)
      → (init completer response).opened_files ≡ completer.opened_files
  unfolding init
  init-opened_files completer response = ground arith

  pub init-IsSynced :
      {R : Type 0} (completer : Completer) (response : ResponseMessage R) (docs : Documents)
      → completer.opened_files ≡ []
      → IsSynced (init completer response) docs
  init-IsSynced completer response docs e =
      let none_open = init-opened_files completer response ∙ e in
      (rw none_open tt, rw none_open (nil-IsConsistent xxh64 docs), λ _. none_open)

  sync_files-IsSynced :
      (opened : Dict File) (req : SimpleRequest) (docs : Documents)
      → IsRequest req
      → AllAbsolute opened
      → IsConsistent xxh64 opened docs
      → (let sent = sync_files xxh64 opened req.file_data in
          IsSynced (record { initialised = true; opened_files = sent.0 }) (notify_all sent.1 docs))
  sync_files-IsSynced opened req docs (v, named) all agree = (
    AllAbsolute-sync_files xxh64 opened req.file_data named all,
    sync_files-IsConsistent xxh64 opened req.file_data docs v named all agree,
    λ off. absurd (false≢true (sym off)),
  )

  pub handle_event_notification-IsSynced :
      (completer : Completer) (event : EventName) (req : SimpleRequest) (docs : Documents)
      → IsRequest req
      → IsSynced completer docs
      → (let sent = handle_event_notification xxh64 completer event req in
          IsSynced sent.0 (notify_all sent.1 docs))
  unfolding handle_event_notification notify_all
  handle_event_notification-IsSynced completer file_ready_to_parse req docs valid sound =
      elim (Bool-cases completer.initialised) [
        | inl on ↦ rw on (sync_files-IsSynced completer.opened_files req docs valid sound.0 sound.1)
        | inr off ↦ rw off (sound.0, sound.1, λ _. sound.2 off)
      ]
  handle_event_notification-IsSynced completer file_save req docs valid sound = sound
  handle_event_notification-IsSynced completer buffer_visit req docs valid sound = sound
  handle_event_notification-IsSynced completer buffer_unload req docs valid sound = sound
  handle_event_notification-IsSynced completer insert_leave req docs valid sound = sound
  handle_event_notification-IsSynced completer current_identifier_finished req docs valid sound =
      sound

  pub compute_candidates-IsSynced :
      (completer : Completer) (req : SimpleRequest) (column_codepoint : ℕ)
      (response : ResponseMessage CompletionsResponse) (docs : Documents)
      → IsRequest req
      → IsSynced completer docs
      → (let found = compute_candidates xxh64 completer req column_codepoint response in
          IsSynced found.completer (notify_all found.notifications docs))
  unfolding compute_candidates notify_all
  compute_candidates-IsSynced completer req column_codepoint response docs valid sound =
      elim (Bool-cases completer.initialised) [
        | inl on ↦ rw on (sync_files-IsSynced completer.opened_files req docs valid sound.0 sound.1)
        | inr off ↦ rw off (sound.0, sound.1, λ _. sound.2 off)
      ]
