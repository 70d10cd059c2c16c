-- ===== src/Handlers/Completions.antt =====
-- `handle_event_notification` and `handle_completions` of src/handlers.cpp, with the state of
-- src/server.cpp. The parts of an event that run side by side change different fields, so they are
-- steps one after another. What clangd answers is an argument. All values of a request are
-- computed before they are used, where the source computes those that it needs; where one of them
-- throws or is undefined there is no result.
pub mod Laws
use Prim.Native.Char.{code}
use ycmd_cpp.Base.{
  ℕ, Bool, true, false, Option, none, some, List, [], ◌∷◌, ◌>>=◌, if◌then◌else◌, ltb, Bytes,
  bytes_eq, length, not, ◌&&◌,
}
use ycmd_cpp.Api
use ycmd_cpp.Api.{SimpleRequest, EventName}
use ycmd_cpp.CodePoint.{Table}
use ycmd_cpp.CodePoint.Decode.{Decoded, ok, throw}
use ycmd_cpp.Std.{Algorithms}
use ycmd_cpp.IdentifierDatabase.Store.{Database}
use ycmd_cpp.Identifiers.{Regexes}
use ycmd_cpp.Request
use ycmd_cpp.Request.{TextCoding, Wrapped, first_filetype, wrap}
use ycmd_cpp.Lsp.Types.{CompletionsResponse, ResponseMessage}
use ycmd_cpp.Clangd.Sync.{Notification}
use ycmd_cpp.Clangd.Completion
use ycmd_cpp.Clangd.Completion.{Completer, init, bytes}
use ycmd_cpp.Completers

pub data SemanticCompleterKind : Type 0 where
  clangd jedi no_kind : SemanticCompleterKind

unfoldable pub completer_for_request : Bytes → SemanticCompleterKind
completer_for_request filetype =
    if bytes_eq filetype (bytes "cpp")
    then clangd
    else if bytes_eq filetype (bytes "python")
    then jedi
    else no_kind

pub record Server : Type 0 where
  pub min_num_of_chars_for_completion : ℕ
  pub min_num_identifier_candidate_chars : ℕ
  pub database : Database
  pub clangd_completer : Option Completer

-- What a handler gives: a response; an exception; or, for the use of an optional that is empty, no
-- defined behaviour.
pub data Reply : Type 0 where
  empty_array : Reply
  completions : Api.CompletionsResponse → Reply
  exception : Reply
  undefined : Reply

-- What a completion leaves: the state, what is sent to clangd, and the reply.
pub record Handled : Type 0 where
  pub server : Server
  pub notifications : List Notification
  pub reply : Reply

abbrev pub unchanged : Server → Reply → Handled
unchanged server reply = record { server = server; notifications = []; reply = reply }

abbrev pub fresh_completer : Completer
fresh_completer = record { initialised = false; opened_files = [] }

-- The completer of clangd, made and initialised at its first event. That clangd is not found counts
-- as a response without a result.
unfoldable pub ensure_completer : {R : Type 0} → Option Completer → ResponseMessage R → Completer
unfolding init
ensure_completer none response = init fresh_completer response
ensure_completer (some completer) response = completer

-- The semantic part of an event.
unfoldable pub notify_semantic :
    {R : Type 0}
    → (Bytes → ℕ)
    → SemanticCompleterKind
    → Server
    → EventName
    → SimpleRequest
    → ResponseMessage R
    → Server × List Notification
unfolding ensure_completer Completion.handle_event_notification
notify_semantic xxh64 clangd server event req response =
    let completer = ensure_completer server.clangd_completer response in
    let sent = Completion.handle_event_notification xxh64 completer event req in
    (record server { clangd_completer = some sent.0 }, sent.1)
notify_semantic xxh64 jedi server event req response = (server, [])
notify_semantic xxh64 no_kind server event req response = (server, [])

unfoldable pub reply_found : ℕ → Decoded (List Api.Candidate) → Reply
reply_found start_column (throw e) = exception
reply_found start_column (ok candidates) =
    completions
      (record { completions = candidates; completion_start_column = start_column; errors = [] })

module _ (std : Algorithms) (table : Table) (regexes : Regexes) (coding : TextCoding)
    (xxh64 : Bytes → ℕ) where
  -- The state after an event. Without the file of the request, or its type, there is no result.
  unfoldable pub handle_event_notification :
      {R : Type 0}
      → Server
      → EventName
      → SimpleRequest
      → ResponseMessage R
      → Option (Server × List Notification)
  unfolding completer_for_request notify_semantic first_filetype
      Completers.handle_event_notification
  handle_event_notification server event req response = do
    filetype ← first_filetype req
    let sent = notify_semantic xxh64 (completer_for_request filetype) server event req response
    noted ← Completers.handle_event_notification std table regexes server.database event req
    some (record sent.0 { database = noted.0 }, sent.1)

  -- The candidates of identifiers, where the semantic ones are none.
  unfoldable pub reply_identifiers : Server → Wrapped coding → Reply
  unfolding Completers.compute_candidates reply_found
  reply_identifiers server wrapped = reply_found wrapped.start_byte (
      Completers.compute_candidates std table server.database
        server.min_num_identifier_candidate_chars wrapped.text_bytes wrapped.filetype)

  unfoldable pub reply_candidates : Server → Wrapped coding → Bool → List Api.Candidate → Reply
  unfolding reply_identifiers
  reply_candidates server wrapped false [] = reply_identifiers server wrapped
  reply_candidates server wrapped force_semantic candidates = completions (record {
    completions = candidates;
    completion_start_column = wrapped.start_byte;
    errors = [];
  })

  -- The semantic candidates of the completer of the kind, and the reply.
  unfoldable pub reply_kind :
      SemanticCompleterKind
      → Server
      → SimpleRequest
      → Wrapped coding
      → Bool
      → ResponseMessage CompletionsResponse
      → Handled
  unfolding Completion.compute_candidates reply_candidates
  reply_kind clangd server req wrapped force_semantic response = elim server.clangd_completer [
    | none ↦ unchanged server undefined
    | some completer ↦
        (let found = Completion.compute_candidates xxh64 completer req wrapped.column response in
          record {
            server = record server { clangd_completer = some found.completer };
            notifications = found.notifications;
            reply = reply_candidates server wrapped force_semantic found.candidates;
          })
  ]
  reply_kind _ server req wrapped force_semantic response =
      unchanged server (reply_candidates server wrapped force_semantic [])

  unfoldable pub handle_completions :
      Server → SimpleRequest → Bool → ResponseMessage CompletionsResponse → Option Handled
  unfolding wrap completer_for_request reply_kind
  handle_completions server req force_semantic response = do
    wrapped ← wrap coding regexes req
    let short = ltb (length wrapped.text) server.min_num_of_chars_for_completion
    some (
        if not force_semantic && short
        then unchanged server empty_array
        else reply_kind (completer_for_request wrapped.filetype) server req wrapped force_semantic
            response)
