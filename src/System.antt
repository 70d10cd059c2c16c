-- ===== src/System.antt =====
-- The server with the documents that its language server has: events and completions of
-- src/handlers.cpp, one after another, on the state of src/server.cpp. A request names each file
-- once, as a JSON object, and by an absolute path, as editors do.
pub mod Preserves
pub mod Invariant
pub mod Buffer
pub mod Offered
pub mod Defined
use ycmd_cpp.Base.{ℕ, ◌≡◌, Bool, Option, none, some, List, [], Bytes}
use ycmd_cpp.Api.{SimpleRequest, EventName}
use ycmd_cpp.CodePoint.{Table}
use ycmd_cpp.Std.{Algorithms}
use ycmd_cpp.Identifiers.{Regexes}
use ycmd_cpp.Request.{TextCoding}
use ycmd_cpp.Lsp.Types.{CompletionsResponse, ResponseMessage}
use ycmd_cpp.Clangd.Sync.{Notification}
use ycmd_cpp.Clangd.Sync.Documents.{Documents, notify_all}
use ycmd_cpp.Clangd.Completion.Synced.{IsRequest}
use ycmd_cpp.Handlers.Completions.{Server, Handled, handle_event_notification, handle_completions}

pub record System : Type 0 where
  pub server : Server
  pub documents : Documents

abbrev pub no_documents : Documents
no_documents _ = none

-- The server as it starts, with the two options.
unfoldable pub start : ℕ → ℕ → System
start min_num_of_chars min_num_identifier_chars = record {
  server = record {
    min_num_of_chars_for_completion = min_num_of_chars;
    min_num_identifier_candidate_chars = min_num_identifier_chars;
    database = record { candidate_repository = []; filetype_candidate_map = [] };
    clangd_completer = none;
  };
  documents = no_documents;
}

-- The notifications reach the language server in the order in which they are sent.
abbrev pub delivered : Server → List Notification → Documents → System
delivered server sent documents = record { server = server; documents = notify_all sent documents }

module _ (std : Algorithms) (table : Table) (regexes : Regexes) (coding : TextCoding)
    (xxh64 : Bytes → ℕ) (R : Type 0) where
  pub data Step : System → System → Type 0 where
    notified :
        (system : System) (event : EventName) (req : SimpleRequest) (response : ResponseMessage R)
        (server : Server) (sent : List Notification)
        → IsRequest req
        → handle_event_notification std table regexes coding xxh64 system.server event req response
          ≡ some (server, sent)
        → Step system (delivered server sent system.documents)
    completed :
        (system : System) (req : SimpleRequest) (force_semantic : Bool)
        (response : ResponseMessage CompletionsResponse) (handled : Handled)
        → IsRequest req
        → handle_completions std table regexes coding xxh64 system.server req force_semantic
            response
          ≡ some handled
        → Step system (delivered handled.server handled.notifications system.documents)

  -- Any number of steps.
  pub data Steps : System → System → Type 0 where
    no_steps : (system : System) → Steps system system
    one_step : (first next last : System) → Step first next → Steps next last → Steps first last
