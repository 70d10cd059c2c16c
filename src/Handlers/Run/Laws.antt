-- ===== src/Handlers/Run/Laws.antt =====
-- Until when the server answers, and what.
use ycmd_cpp.Base.{
  ◌≡◌, refl, sym, ap, ◌∙◌, Bool, true, false, ◌&&◌, none, some, List, [], ◌∷◌, map, if◌then◌else◌,
  arith, Bytes, bytes_eq, bytes_eq_iff, bytes_eq_refl, Bool-cases, Option-cases, inl, inr,
}
use mathlib.Core.Bool.{false≢true}
use mathlib.Core.Option.{some-injective, none-ne-some}
use ycmd_cpp.Json.{JsonLibrary, Codec}
use ycmd_cpp.Handlers.Session.{
  Verb, get, post, other_verb, verb_eq, Handler, healthy, ready, shutdown, initialize, completions,
  event_notification, run_completer_command, filter_and_sort_candidates,
  semantic_completion_available, signature_help_available, defined_subcommands, detailed_diagnostic,
  debug_info, receive_messages, semantic_tokens, inlay_hints, verb_of, path_of, find_handler,
  Response, Outcome, returned, shutdown_result, system_error, exception, Ended, answered, aborted,
  respond, handle_session,
}
use ycmd_cpp.Handlers.Session.Laws.{IsShutdown, throws, not_found, find_handler_iff, verb_eq→≡}
use ycmd_cpp.Handlers.Run.{
  Answer, answer, system_failure, failure, Handlers, Request, outcome, run, session, and_later,
  listen,
}

-- The one request that stops the server.
abbrev pub is_shutdown : Request → Bool
is_shutdown request =
    verb_eq request.verb (verb_of shutdown) && bytes_eq request.path (path_of shutdown)

verb_eq_refl : (v : Verb) → verb_eq v v ≡ true
unfolding verb_eq
verb_eq_refl get = refl
verb_eq_refl post = refl
verb_eq_refl (other_verb n) = ground arith

module _ (lib : JsonLibrary) (strings : Codec lib Bytes) (booleans : Codec lib Bool)
    (vectors : Codec lib (List lib.Json)) (dump : lib.Json → Bytes) (hs : Handlers lib.Json) where
  abbrev pub outcome_for : Request → Handler → Outcome
  outcome_for request h = run lib strings booleans vectors dump hs request.body h

  -- The handler of the request throws an error.
  abbrev pub fails : Request → Bool
  fails request = elim (find_handler request.verb request.path) [
    | none ↦ false
    | some h ↦ throws (outcome_for request h)
  ]

  -- The requests before the first that fails, up to the one that stops the server.
  abbrev pub until_end : List Request → List Request
  until_end [] = []
  until_end (request ∷ requests) =
      if fails request
      then []
      else request ∷ (if is_shutdown request then [] else until_end requests)

  -- What a handler that does not fail gives, in a response of its own or in the one that it throws.
  abbrev pub response_of : Outcome → Response
  response_of (returned response) = response
  response_of (shutdown_result response) = response
  response_of (system_error what message) = not_found
  response_of (exception name what) = not_found

  -- The response to a request that does not fail: that of its handler, or not found.
  abbrev pub reply_to : Request → Response
  reply_to request = elim (find_handler request.verb request.path) [
    | none ↦ not_found
    | some h ↦ response_of (outcome_for request h)
  ]

  outcome-IsShutdown :
      (a : Answer lib.Json) → IsShutdown (outcome lib strings booleans vectors dump a) → ⊥
  unfolding outcome
  outcome-IsShutdown (answer j) h = h
  outcome-IsShutdown (system_failure what message) h = h
  outcome-IsShutdown (failure name what) h = h

  run-IsShutdown :
      (request : Request) (h : Handler) → IsShutdown (outcome_for request h) → h ≡ shutdown
  unfolding run
  run-IsShutdown request shutdown e = refl
  run-IsShutdown request initialize e = absurd (outcome-IsShutdown (hs.initialize request.body) e)
  run-IsShutdown request completions e = absurd (outcome-IsShutdown (hs.completions request.body) e)
  run-IsShutdown request event_notification e =
      absurd (outcome-IsShutdown (hs.event_notification request.body) e)
  run-IsShutdown request filter_and_sort_candidates e =
      absurd (outcome-IsShutdown (hs.filter_and_sort_candidates request.body) e)
  run-IsShutdown request debug_info e = absurd (outcome-IsShutdown (hs.debug_info request.body) e)
  run-IsShutdown request healthy e = absurd e
  run-IsShutdown request ready e = absurd e
  run-IsShutdown request run_completer_command e = absurd e
  run-IsShutdown request semantic_completion_available e = absurd e
  run-IsShutdown request signature_help_available e = absurd e
  run-IsShutdown request defined_subcommands e = absurd e
  run-IsShutdown request detailed_diagnostic e = absurd e
  run-IsShutdown request receive_messages e = absurd e
  run-IsShutdown request semantic_tokens e = absurd e
  run-IsShutdown request inlay_hints e = absurd e

  is_shutdown-eq :
      (request : Request)
      → is_shutdown request ≡ true
      → find_handler request.verb request.path ≡ some shutdown
  is_shutdown-eq request e = (find_handler_iff request.verb request.path shutdown).1 (
    verb_eq→≡ request.verb (verb_of shutdown) (ground (arith, e)),
    (bytes_eq_iff request.path (path_of shutdown)).0 (ground (arith, e)),
  )

  shutdown-is_shutdown :
      (request : Request)
      → find_handler request.verb request.path ≡ some shutdown
      → is_shutdown request ≡ true
  shutdown-is_shutdown request found =
      let (verbs, paths) = (find_handler_iff request.verb request.path shutdown).0 found in
      rw (verbs, paths, verb_eq_refl (verb_of shutdown), bytes_eq_refl (path_of shutdown)) refl

  -- What a session is, by whether its handler fails and whether it is the one for shutdown.
  abbrev ended : Bool → Response → Bool → Ended
  ended true response stops = aborted
  ended false response stops = answered response stops

  shutdown-respond :
      (request : Request)
      → respond (outcome_for request shutdown)
        ≡ ended
            (throws (outcome_for request shutdown))
            (response_of (outcome_for request shutdown))
            true
  unfolding respond run
  shutdown-respond request = refl

  other-respond :
      (o : Outcome) → (IsShutdown o → ⊥) → respond o ≡ ended (throws o) (response_of o) false
  unfolding respond
  other-respond (returned response) h = refl
  other-respond (shutdown_result response) h = absurd (h tt)
  other-respond (system_error what message) h = refl
  other-respond (exception name what) h = refl

  respond-ended :
      (request : Request) (h : Handler)
      → find_handler request.verb request.path ≡ some h
      → respond (outcome_for request h)
        ≡ ended
            (throws (outcome_for request h))
            (response_of (outcome_for request h))
            (is_shutdown request)
  respond-ended request h found = elim (Bool-cases (is_shutdown request)) [
    | inl e ↦
        (let same = some-injective shutdown h (sym (is_shutdown-eq request e) ∙ found) in
          rw (e, sym same) (shutdown-respond request))
    | inr e ↦ rw e (
        other-respond (outcome_for request h) (λ stops.
          let shut =
            shutdown-is_shutdown request (found ∙ ap some (run-IsShutdown request h stops)) in
          false≢true (sym e ∙ shut)))
  ]

  session-ended :
      (request : Request)
      → session lib strings booleans vectors dump hs request
        ≡ ended (fails request) (reply_to request) (is_shutdown request)
  unfolding session handle_session
  session-ended request = elim (Option-cases (find_handler request.verb request.path)) [
    | inl missing ↦ elim (Bool-cases (is_shutdown request)) [
      | inl e ↦ absurd (none-ne-some shutdown (sym missing ∙ is_shutdown-eq request e))
      | inr e ↦ rw (session, handle_session, missing, e) refl
    ]
    | inr (h, found) ↦ rw (session, handle_session, found) (respond-ended request h found)
  ]

  -- Clients that come one after another are answered up to the first POST of /shutdown, that one
  -- included, and before the first request whose handler throws an error; each by the handler of its
  -- request or by not found, and nobody after these.
  pub listen-until_end :
      (requests : List Request)
      → listen lib strings booleans vectors dump hs requests ≡ map reply_to (until_end requests)
  unfolding listen and_later
  listen-until_end [] = refl
  listen-until_end (request ∷ requests) =
      let later = listen-until_end requests in
      rw (listen, session-ended request)
        (elim (Bool-cases (fails request)) [
          | inl e ↦ rw e refl
          | inr e ↦ elim (Bool-cases (is_shutdown request)) [
            | inl s ↦ rw (e, s) refl
            | inr s ↦ rw (e, s) (ap (◌∷◌ (reply_to request)) later)
          ]
        ])
