-- ===== src/Handlers/Session/Laws.antt =====
-- Which handler answers a request.
use ycmd_cpp.Base.{
  ◌≡◌, ◌↔◌, refl, sym, ap, ◌∙◌, Bool, true, false, ◌&&◌, some, List, [], ◌∷◌, arith, Bytes,
  bytes_eq, bytes_eq_iff, Bool-cases, inl, inr,
}
use mathlib.Core.Option.{some-injective, none-ne-some}
use ycmd_cpp.Handlers.Session.{
  Verb, get, post, other_verb, verb_eq, Handler, healthy, ready, shutdown, initialize, completions,
  event_notification, run_completer_command, filter_and_sort_candidates,
  semantic_completion_available, signature_help_available, defined_subcommands, detailed_diagnostic,
  debug_info, receive_messages, semantic_tokens, inlay_hints, verb_of, path_of, handlers, find_in,
  find_handler, Response, no_body, Outcome, returned, shutdown_result, system_error, exception,
}

pub verb_eq→≡ : (v w : Verb) → verb_eq v w ≡ true → v ≡ w
unfolding verb_eq
verb_eq→≡ get get h = refl
verb_eq→≡ post post h = refl
verb_eq→≡ (other_verb m) (other_verb n) h = ap other_verb (ground (arith, h))
verb_eq→≡ get post h = ground (arith, h)
verb_eq→≡ get (other_verb n) h = ground (arith, h)
verb_eq→≡ post get h = ground (arith, h)
verb_eq→≡ post (other_verb n) h = ground (arith, h)
verb_eq→≡ (other_verb m) get h = ground (arith, h)
verb_eq→≡ (other_verb m) post h = ground (arith, h)

find_in-some :
    (hs : List Handler) (verb : Verb) (path : Bytes) (h : Handler)
    → find_in hs verb path ≡ some h
    → (verb ≡ verb_of h) × (path ≡ path_of h)
unfolding find_in
find_in-some [] verb path h e = elim (none-ne-some h e) [ ]
find_in-some (handler ∷ others) verb path h e =
    elim (Bool-cases (verb_eq (verb_of handler) verb && bytes_eq (path_of handler) path)) [
      | inl hit ↦
          (let p : find_in (handler ∷ others) verb path ≡ some handler = rw (find_in, hit) refl in
            let verbs : verb_eq (verb_of handler) verb ≡ true = ground (arith, hit) in
            let paths : bytes_eq (path_of handler) path ≡ true = ground (arith, hit) in
            let same = some-injective handler h (sym p ∙ e) in
            (
              sym (verb_eq→≡ (verb_of handler) verb verbs) ∙ ap verb_of same,
              sym ((bytes_eq_iff (path_of handler) path).0 paths) ∙ ap path_of same,
            ))
      | inr miss ↦
          (let p : find_in (handler ∷ others) verb path ≡ find_in others verb path =
              rw (find_in, miss) refl in
            find_in-some others verb path h (sym p ∙ e))
    ]

find_handler_own : (h : Handler) → find_handler (verb_of h) (path_of h) ≡ some h
unfolding find_handler
find_handler_own healthy = refl
find_handler_own ready = refl
find_handler_own shutdown = refl
find_handler_own initialize = refl
find_handler_own completions = refl
find_handler_own event_notification = refl
find_handler_own run_completer_command = refl
find_handler_own filter_and_sort_candidates = refl
find_handler_own semantic_completion_available = refl
find_handler_own signature_help_available = refl
find_handler_own defined_subcommands = refl
find_handler_own detailed_diagnostic = refl
find_handler_own debug_info = refl
find_handler_own receive_messages = refl
find_handler_own semantic_tokens = refl
find_handler_own inlay_hints = refl

-- A handler answers the requests with its verb and its path, and no others.
pub find_handler_iff :
    (verb : Verb) (path : Bytes) (h : Handler)
    → (find_handler verb path ≡ some h) ↔ ((verb ≡ verb_of h) × (path ≡ path_of h))
unfolding find_handler
find_handler_iff verb path h = (
  find_in-some handlers verb path h,
  λ (v, p). ap (λ w. find_handler w path) v ∙ ap (find_handler (verb_of h)) p ∙ find_handler_own h,
)

abbrev pub IsShutdown : Outcome → Type 0
IsShutdown (shutdown_result response) = Unit
IsShutdown (returned response) = ⊥
IsShutdown (system_error what message) = ⊥
IsShutdown (exception name what) = ⊥

-- The handler throws an error.
abbrev pub throws : Outcome → Bool
throws (returned response) = false
throws (shutdown_result response) = false
throws (system_error what message) = true
throws (exception name what) = true

abbrev pub not_found : Response
not_found = record { result = 404; body = no_body }
