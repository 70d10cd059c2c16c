-- ===== src/Handlers/Session.antt =====
-- The dispatch of requests: `HANDLERS` of src/handlers.cpp and `handle_session` of src/ycmd.cpp. What
-- a handler does is an argument. Reading the request from the socket, and writing the response to
-- it, are left out.
pub mod Laws
use Prim.Native.Char.{code}
use ycmd_cpp.Base.{
  ℕ, Bool, true, false, ◌&&◌, Option, none, some, List, [], ◌∷◌, ◌==◌, if◌then◌else◌, Bytes,
  bytes_eq,
}
use ycmd_cpp.Clangd.Completion.{bytes}

-- `http::verb`.
pub data Verb : Type 0 where
  get : Verb
  post : Verb
  other_verb : ℕ → Verb

unfoldable pub verb_eq : Verb → Verb → Bool
verb_eq get get = true
verb_eq post post = true
verb_eq (other_verb m) (other_verb n) = m == n
verb_eq _ _ = false

-- The handlers, by their names in the list.
pub data Handler : Type 0 where
  healthy : Handler
  ready : Handler
  shutdown : Handler
  initialize : Handler
  completions : Handler
  event_notification : Handler
  run_completer_command : Handler
  filter_and_sort_candidates : Handler
  semantic_completion_available : Handler
  signature_help_available : Handler
  defined_subcommands : Handler
  detailed_diagnostic : Handler
  debug_info : Handler
  receive_messages : Handler
  semantic_tokens : Handler
  inlay_hints : Handler

-- The verb and the path of each.
unfoldable pub verb_of : Handler → Verb
verb_of healthy = get
verb_of ready = get
verb_of shutdown = post
verb_of initialize = post
verb_of completions = post
verb_of event_notification = post
verb_of run_completer_command = post
verb_of filter_and_sort_candidates = post
verb_of semantic_completion_available = post
verb_of signature_help_available = get
verb_of defined_subcommands = post
verb_of detailed_diagnostic = post
verb_of debug_info = post
verb_of receive_messages = post
verb_of semantic_tokens = post
verb_of inlay_hints = post

unfoldable pub path_of : Handler → Bytes
path_of healthy = bytes "/healthy"
path_of ready = bytes "/ready"
path_of shutdown = bytes "/shutdown"
path_of initialize = bytes "/initialize"
path_of completions = bytes "/completions"
path_of event_notification = bytes "/event_notification"
path_of run_completer_command = bytes "/run_completer_command"
path_of filter_and_sort_candidates = bytes "/filter_and_sort_candidates"
path_of semantic_completion_available = bytes "/semantic_completion_available"
path_of signature_help_available = bytes "/signature_help_available"
path_of defined_subcommands = bytes "/defined_subcommands"
path_of detailed_diagnostic = bytes "/detailed_diagnostic"
path_of debug_info = bytes "/debug_info"
path_of receive_messages = bytes "/receive_messages"
path_of semantic_tokens = bytes "/semantic_tokens"
path_of inlay_hints = bytes "/inlay_hints"

abbrev pub handlers : List Handler
handlers =
    healthy ∷ ready ∷ shutdown ∷ initialize ∷ completions ∷ event_notification
    ∷ run_completer_command ∷ filter_and_sort_candidates ∷ semantic_completion_available
    ∷ signature_help_available ∷ defined_subcommands ∷ detailed_diagnostic ∷ debug_info
    ∷ receive_messages ∷ semantic_tokens ∷ inlay_hints ∷ []

-- The look-up in `HANDLERS`.
unfoldable pub find_in : List Handler → Verb → Bytes → Option Handler
unfolding verb_eq verb_of path_of bytes_eq
find_in [] verb path = none
find_in (handler ∷ others) verb path =
    if verb_eq (verb_of handler) verb && bytes_eq (path_of handler) path
    then some handler
    else find_in others verb path

unfoldable pub find_handler : Verb → Bytes → Option Handler
unfolding find_in
find_handler verb path = find_in handlers verb path

-- The body is a text that a handler makes.
pub data Body : Type 0 where
  no_body : Body
  text_body : Bytes → Body

pub record Response : Type 0 where
  pub result : ℕ
  pub body : Body

-- How a handler ends: with a response, or by throwing a `ShutdownResult`, a `system_error` or another
-- exception, the last two given by the texts that the error would hold.
pub data Outcome : Type 0 where
  returned : Response → Outcome
  shutdown_result : Response → Outcome
  system_error : Bytes → Bytes → Outcome
  exception : Bytes → Bytes → Outcome

-- How a session ends: without a response, with one that is written, after which the acceptor is
-- cancelled or not, or by an exception that leaves it, which aborts the program.
pub data Ended : Type 0 where
  unanswered : Ended
  answered : Response → Bool → Ended
  aborted : Ended

-- The `try` around the handler. The clauses that catch an error assign a JSON object to the body,
-- which is a string; the library throws at that, from inside of the clause, and nothing in the session
-- catches it.
unfoldable pub respond : Outcome → Ended
respond (returned response) = answered response false
respond (shutdown_result response) = answered response true
respond (system_error what message) = aborted
respond (exception name what) = aborted

-- `check_hmac` accepts every request.
abbrev pub check_hmac : Verb → Bytes → Bool
check_hmac verb path = true

unfoldable pub handle_session : (Handler → Outcome) → Verb → Bytes → Ended
unfolding find_handler respond
handle_session run verb path =
    if check_hmac verb path
    then elim (find_handler verb path) [
      | none ↦ answered (record { result = 404; body = no_body }) false
      | some handler ↦ respond (run handler)
    ]
    else unanswered
