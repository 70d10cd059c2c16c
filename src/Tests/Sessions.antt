-- ===== src/Tests/Sessions.antt =====
-- Sessions at concrete inputs.
use ycmd_cpp.Base.{refl, bytes_eq, ◌≡◌, List, [], ◌∷◌, map, Bytes}
use ycmd_cpp.Clangd.Completion.{bytes}
use ycmd_cpp.Handlers.Session.{get, post}
use ycmd_cpp.Handlers.Run.{answer, failure, Handlers, Request, listen}
use ycmd_cpp.Handlers.Session.Laws.{not_found}
use ycmd_cpp.Handlers.Run.Laws.{reply_to, until_end, listen-until_end}
use ycmd_cpp.Tests.Data.{codes}
use ycmd_cpp.Tests.Json.{Value, characters, null_value, values, strings, codecs}

-- Every handler with a body repeats it, but that of events throws.
abbrev echo : Handlers Value
echo = record {
  initialize = λ body. answer (characters body);
  completions = λ body. answer (characters body);
  event_notification = λ body. failure (codes "e") body;
  filter_and_sort_candidates = λ body. answer (characters body);
  debug_info = λ body. answer null_value;
}

abbrev dump : Value → Bytes
dump j = codes "j"

-- A request that is answered, one that stops the server, and one too late.
abbrev requests : List Request
requests =
    record { verb = post; path = bytes "/completions"; body = codes "b" }
    ∷ record { verb = post; path = bytes "/shutdown"; body = [] }
    ∷ record { verb = get; path = bytes "/healthy"; body = [] }
    ∷ []

listen-until_end_example :
    listen values strings codecs.booleans codecs.vectors dump echo requests
    ≡ map
        (reply_to values strings codecs.booleans codecs.vectors dump echo)
        (until_end values strings codecs.booleans codecs.vectors dump echo requests)
listen-until_end_example =
    listen-until_end values strings codecs.booleans codecs.vectors dump echo requests

-- An event, whose handler throws, and nothing after it.
abbrev failing : List Request
failing =
    record { verb = get; path = bytes "/none"; body = [] }
    ∷ record { verb = post; path = bytes "/event_notification"; body = codes "b" }
    ∷ record { verb = get; path = bytes "/healthy"; body = [] }
    ∷ []

listen_aborted :
    listen values strings codecs.booleans codecs.vectors dump echo failing ≡ not_found ∷ []
unfolding listen bytes_eq
listen_aborted = refl
