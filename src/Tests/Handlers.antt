-- ===== src/Tests/Handlers.antt =====
-- The handlers at concrete inputs.
use mathlib.Core.List.{Perm}
use ycmd_cpp.Base.{
  ◌≡◌, refl, false, not, ◌&&◌, ◌||◌, none, some, [], ◌∷◌, map, length, ltb, bytes_eq,
}
use ycmd_cpp.Api.{SimpleRequest}
use ycmd_cpp.Std.{IsSorted}
use ycmd_cpp.Std.Instance.{insertion_algorithms, insertion_algorithms-IsLawful}
use ycmd_cpp.IdentifierDatabase.Search.Laws.{hit}
use ycmd_cpp.Identifiers.{Regexes, identifier_regex_for_filetype}
use ycmd_cpp.Request.{Wrapped, first_filetype, wrap}
use ycmd_cpp.Lsp.Types.{CompletionsResponse, ResponseMessage}
use ycmd_cpp.Handlers.Filter.{result_and_lt, rank}
use ycmd_cpp.Handlers.Filter.Laws.{numbered, rank_lem}
use ycmd_cpp.Handlers.Completions.{Server, completer_for_request, handle_completions}
use ycmd_cpp.Handlers.Completions.Laws.{
  Holds, has_completer, is_clangd, is_undefined, handle_completions-is_undefined,
}
use ycmd_cpp.Tests.Data.{codes, foo_bar, fb, table}
use ycmd_cpp.Tests.Requests.{ascii, is_word}

rank_example :
    Perm
      (rank insertion_algorithms fb (foo_bar ∷ foo_bar ∷ []))
      (numbered 0 (map (hit fb) (foo_bar ∷ foo_bar ∷ [])))
    × IsSorted result_and_lt (rank insertion_algorithms fb (foo_bar ∷ foo_bar ∷ []))
rank_example =
    rank_lem insertion_algorithms insertion_algorithms-IsLawful fb (foo_bar ∷ foo_bar ∷ [])

-- One line, and words of letters.
abbrev pub one_line : Regexes
one_line = record {
  default_identifier_regex = record {
    matches = λ s. record { position = 0; str = s } ∷ [];
    is_match = is_word;
  };
  split_lines = λ s. record { data_offset = 0; size = length s } ∷ [];
}

-- The cursor behind "ab" in a file for clangd.
abbrev pub request : SimpleRequest
request = record {
  line_num = 1;
  column_num = 3;
  filepath = codes "/a";
  file_data = (codes "/a", record { filetypes = codes "cpp" ∷ []; contents = codes "ab" }) ∷ [];
  completer_target = [];
  working_dir = [];
}

abbrev pub server : Server
server = record {
  min_num_of_chars_for_completion = 2;
  min_num_identifier_candidate_chars = 0;
  database = record { candidate_repository = []; filetype_candidate_map = [] };
  clangd_completer = none;
}

abbrev pub no_answer : ResponseMessage CompletionsResponse
no_answer = record { result = none; error = none }

pub request_filetype : first_filetype request ≡ some (codes "cpp")
unfolding first_filetype bytes_eq
request_filetype = refl

abbrev pub wrapped : Wrapped ascii
wrapped = record {
  filetype = codes "cpp";
  column = 3;
  start = 1;
  start_byte = 1;
  text = codes "ab";
  text_bytes = codes "ab";
}

pub wrap_request : wrap ascii one_line request ≡ some wrapped
unfolding wrap bytes_eq identifier_regex_for_filetype
wrap_request = refl

handle_completions_example :
    Holds
      (λ r.
        (has_completer r.server ≡ has_completer server)
        × (is_undefined r.reply ≡ (
            is_clangd (completer_for_request (codes "cpp"))
            && not (has_completer server)
            && (false || not (ltb 2 2)))))
      (handle_completions insertion_algorithms table one_line ascii length server request false
        no_answer)
handle_completions_example =
    handle_completions-is_undefined insertion_algorithms table one_line ascii length server request
      false no_answer wrapped wrap_request
