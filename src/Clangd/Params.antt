-- ===== src/Clangd/Params.antt =====
-- What the client of clangd sends, as JSON: the structs of src/lsp/lsp_types.hpp that `sync_files`,
-- `compute_candiatdes` and `init` of src/completers/cpp/clangd_completer.cpp fill. Vectors and
-- Booleans are converted by the library.
pub mod Laws
use ycmd_cpp.Base.{ℕ, Bool, false, Option, none, some, List, [], ◌∷◌, ◌>>=◌, Bytes}
use ycmd_cpp.Json.{JsonLibrary, Codec, Field, required, optional, nullable, to_json_fields}
use ycmd_cpp.Lsp.Types.{Position, TextDocumentPositionParams}
use ycmd_cpp.Clangd.Completion.{bytes}
use ycmd_cpp.Clangd.Pending.{RequestId}
use ycmd_cpp.Clangd.Sync.{TextDocumentItem, Notification, did_open, did_change, did_close}
use ycmd_cpp.Clangd.Messages.{json_values, send_request, send_notification}

-- The conversions of the library.
pub record Codecs (lib : JsonLibrary) : Type 0 where
  pub strings : Codec lib Bytes
  pub numbers : Codec lib ℕ
  pub booleans : Codec lib Bool
  pub vectors : Codec lib (List lib.Json)

module _ (lib : JsonLibrary) (codecs : Codecs lib) where
  -- A struct that the macros convert: its fields in order.
  abbrev pub struct : List (Bytes × Field lib.Json) → lib.Json
  struct fields = to_json_fields lib (json_values lib) lib.null fields

  abbrev pub string_field : Bytes → Bytes → Bytes × Field lib.Json
  string_field name s = (name, required (codecs.strings.to_json s))

  abbrev pub number_field : Bytes → ℕ → Bytes × Field lib.Json
  number_field name n = (name, required (codecs.numbers.to_json n))

  -- `DidOpenTextDocumentParams`, for a document with a language.
  unfoldable pub did_open_params : TextDocumentItem → Bytes → lib.Json
  unfolding to_json_fields
  did_open_params item language_id =
      let document = struct (
        string_field (bytes "uri") item.uri
        ∷ string_field (bytes "languageId") language_id
        ∷ number_field (bytes "version") item.version
        ∷ string_field (bytes "text") item.text
        ∷ []) in
      struct ((bytes "textDocument", required document) ∷ [])

  -- `DidChangeTextDocumentParams`, with one change of the whole text.
  unfoldable pub did_change_params : Bytes → ℕ → Bytes → lib.Json
  unfolding to_json_fields
  did_change_params uri version text =
      let document =
        struct (string_field (bytes "uri") uri ∷ number_field (bytes "version") version ∷ []) in
      let change = struct (string_field (bytes "text") text ∷ []) in
      struct (
        (bytes "textDocument", required document)
        ∷ (bytes "contentChanges", required (codecs.vectors.to_json (change ∷ [])))
        ∷ [])

  -- `DidCloseTextDocumentParams`.
  unfoldable pub did_close_params : Bytes → lib.Json
  unfolding to_json_fields
  did_close_params uri =
      struct ((bytes "textDocument", required (struct (string_field (bytes "uri") uri ∷ []))) ∷ [])

  -- The message of a notification; none for a document whose file has no type.
  unfoldable pub notification_json : Notification → Option lib.Json
  unfolding did_open_params did_change_params did_close_params send_notification
  notification_json (did_open item) = do
    language_id ← item.language_id
    some (
        send_notification lib codecs.strings codecs.numbers (bytes "textDocument/didOpen")
          (did_open_params item language_id))
  notification_json (did_change uri version text) = some (
      send_notification lib codecs.strings codecs.numbers (bytes "textDocument/didChange")
        (did_change_params uri version text))
  notification_json (did_close uri) = some (
      send_notification lib codecs.strings codecs.numbers (bytes "textDocument/didClose")
        (did_close_params uri))

  -- `CompletionParams` without a context, in its request.
  unfoldable pub completion_request : RequestId → TextDocumentPositionParams → lib.Json
  unfolding to_json_fields send_request
  completion_request id params =
      let position = struct (
        number_field (bytes "line") params.position.line
        ∷ number_field (bytes "character") params.position.character
        ∷ []) in
      let document = struct (string_field (bytes "uri") params.text_document ∷ []) in
      send_request lib codecs.strings codecs.numbers id (bytes "textDocument/completion") (
        struct (
          (bytes "textDocument", required document)
          ∷ (bytes "position", required position)
          ∷ (bytes "context", optional none)
          ∷ []))

  -- `ClientCapabilities`.
  unfoldable pub client_capabilities : Bool → Bool → lib.Json
  unfolding to_json_fields
  client_capabilities apply_edit snippet_support =
      let workspace =
        struct ((bytes "applyEdit", required (codecs.booleans.to_json apply_edit)) ∷ []) in
      let completion =
        struct
          ((bytes "snippetSupport", required (codecs.booleans.to_json snippet_support)) ∷ []) in
      let text_document = struct ((bytes "completion", required completion) ∷ []) in
      struct (
        (bytes "workspace", required workspace)
        ∷ (bytes "textDocument", required text_document)
        ∷ [])

  -- `InitializeParams` in its request, for a process number.
  unfoldable pub initialize_request : RequestId → ℕ → lib.Json
  unfolding to_json_fields send_request client_capabilities
  initialize_request id process_id =
      send_request lib codecs.strings codecs.numbers id (bytes "initialize") (
        struct (
          (bytes "processId", nullable (some (codecs.numbers.to_json process_id)))
          ∷ string_field (bytes "rootUri") (bytes "/foo")
          ∷ (bytes "initializationOptions", required lib.null)
          ∷ (bytes "workspaceFolders", nullable none)
          ∷ (bytes "capabilities", required (client_capabilities false false))
          ∷ []))
