-- ===== src/Handlers/Run.antt =====
-- The handlers of src/handlers.cpp as they answer, and the sessions of src/ycmd.cpp one after
-- another. The handlers that read the body of a request are arguments, except that none of them
-- throws a `ShutdownResult`; the others are written out. JSON is a library's. `handle_shutdown`
-- throws, and the acceptor that is then cancelled ends the loop of `listen`; a session that aborts ends
-- the program.
pub mod Laws
use ycmd_cpp.Base.{Bool, true, false, Option, none, some, List, [], ◌∷◌, if◌then◌else◌, Bytes}
use ycmd_cpp.Json.{JsonLibrary, Codec, Field, required, to_json_fields}
use ycmd_cpp.Clangd.Completion.{bytes}
use ycmd_cpp.Clangd.Messages.{json_values}
use ycmd_cpp.Handlers.Session.{
  Verb, Handler, healthy, ready, shutdown, initialize, completions, event_notification,
  run_completer_command, filter_and_sort_candidates, semantic_completion_available,
  signature_help_available, defined_subcommands, detailed_diagnostic, debug_info, receive_messages,
  semantic_tokens, inlay_hints, Response, text_body, Outcome, returned, shutdown_result,
  system_error, exception, Ended, unanswered, answered, aborted, handle_session,
}

-- How a handler that reads the body ends.
pub data Answer (J : Type 0) : Type 0 where
  answer : J → Answer J
  system_failure : Bytes → Bytes → Answer J
  failure : Bytes → Bytes → Answer J

-- The handlers that read the body.
pub record Handlers (J : Type 0) : Type 0 where
  pub initialize : Bytes → Answer J
  pub completions : Bytes → Answer J
  pub event_notification : Bytes → Answer J
  pub filter_and_sort_candidates : Bytes → Answer J
  pub debug_info : Bytes → Answer J

pub record Request : Type 0 where
  pub verb : Verb
  pub path : Bytes
  pub body : Bytes

module _ (lib : JsonLibrary) (strings : Codec lib Bytes) (booleans : Codec lib Bool)
    (vectors : Codec lib (List lib.Json)) (dump : lib.Json → Bytes) where
  -- `SemanticTokensResponse` and `InlayHintsResponse`, as they are constructed.
  unfoldable pub semantic_tokens_response : lib.Json
  unfolding to_json_fields
  semantic_tokens_response =
      let tokens =
        to_json_fields lib (json_values lib) lib.null
          ((bytes "tokens", required (vectors.to_json [])) ∷ []) in
      to_json_fields lib (json_values lib) lib.null (
        (bytes "semantic_tokens", required tokens)
        ∷ (bytes "errors", required (vectors.to_json []))
        ∷ [])

  unfoldable pub inlay_hints_response : lib.Json
  unfolding to_json_fields
  inlay_hints_response = to_json_fields lib (json_values lib) lib.null (
      (bytes "inlay_hints", required (vectors.to_json []))
      ∷ (bytes "errors", required (vectors.to_json []))
      ∷ [])

  unfoldable pub json_response : lib.Json → Response
  json_response j = record { result = 200; body = text_body (dump j) }

  unfoldable pub outcome : Answer lib.Json → Outcome
  unfolding json_response
  outcome (answer j) = returned (json_response j)
  outcome (system_failure what message) = system_error what message
  outcome (failure name what) = exception name what

  unfoldable pub run : Handlers lib.Json → Bytes → Handler → Outcome
  unfolding outcome json_response semantic_tokens_response inlay_hints_response
  run hs body healthy = returned (json_response (booleans.to_json true))
  run hs body ready = returned (json_response (booleans.to_json true))
  run hs body shutdown = shutdown_result (json_response (booleans.to_json true))
  run hs body initialize = outcome (hs.initialize body)
  run hs body completions = outcome (hs.completions body)
  run hs body event_notification = outcome (hs.event_notification body)
  run hs body run_completer_command = returned (json_response lib.null)
  run hs body filter_and_sort_candidates = outcome (hs.filter_and_sort_candidates body)
  run hs body semantic_completion_available = returned (json_response (booleans.to_json false))
  run hs body signature_help_available = returned (json_response (booleans.to_json false))
  run hs body defined_subcommands = returned (json_response (vectors.to_json []))
  run hs body detailed_diagnostic = returned (json_response (strings.to_json []))
  run hs body debug_info = outcome (hs.debug_info body)
  run hs body receive_messages = returned (json_response (booleans.to_json false))
  run hs body semantic_tokens = returned (json_response semantic_tokens_response)
  run hs body inlay_hints = returned (json_response inlay_hints_response)

  unfoldable pub session : Handlers lib.Json → Request → Ended
  unfolding run handle_session
  session hs request = handle_session (run hs request.body) request.verb request.path

  -- What a session leaves, before the responses to later clients.
  unfoldable pub and_later : Ended → List Response → List Response
  and_later unanswered later = later
  and_later (answered response stops) later = response ∷ (if stops then [] else later)
  and_later aborted later = []

  -- The responses to clients that come one after another, each when the session before has ended.
  unfoldable pub listen : Handlers lib.Json → List Request → List Response
  unfolding session and_later
  listen hs [] = []
  listen hs (request ∷ requests) = and_later (session hs request) (listen hs requests)
