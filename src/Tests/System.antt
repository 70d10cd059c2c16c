-- ===== src/Tests/System.antt =====
-- The server with its language server, at concrete inputs.
use ycmd_cpp.Base.{
  ℕ, ◌≡◌, refl, true, false, none, some, [], ◌∷◌, length, List, Bytes, ltb, ◌&&◌, any, arith, map,
  ◌<◌, bytes_eq, bytes_lt, find,
}
use ycmd_cpp.Api.{SimpleRequest, file_ready_to_parse}
use ycmd_cpp.CodePoint.Decode.{ok, map_decoded}
use ycmd_cpp.Std.Instance.{insertion_sort, insertion_algorithms, insertion_algorithms-IsLawful}
use ycmd_cpp.Character.{Character}
use ycmd_cpp.Word.{Word, compute_bytes_present, make_word}
use ycmd_cpp.Candidate.{from_word, make_candidate}
use ycmd_cpp.Identifiers.{identifiers_from_buffer, identifier_regex_for_filetype}
use ycmd_cpp.Request.{Wrapped, wrap}
use ycmd_cpp.Api
use ycmd_cpp.Completers.{compute_candidates}
use ycmd_cpp.Completers.Offered.{is_offered, compute_candidates-is_offered}
use ycmd_cpp.IdentifierDatabase.Store.{Database, FilepathToCandidates}
use ycmd_cpp.IdentifierDatabase.Store.Sound.{IsSound}
use ycmd_cpp.IdentifierDatabase.Search.Laws.{all_candidates}
use ycmd_cpp.Repository.Laws.{nil-IsCache}
use ycmd_cpp.Repository.{clip}
use ycmd_cpp.Word.{is_empty, contains_bytes}
use ycmd_cpp.Base.{xor}
use ycmd_cpp.Result.{is_subsequence}
use ycmd_cpp.Query.{query_match_result}
use ycmd_cpp.Character.{matches_smart}
use ycmd_cpp.IdentifierDatabase.Search.Found.{is_hit, is_hit_of}
use ycmd_cpp.Lsp.Types.{ResponseMessage}
use ycmd_cpp.Tests.Data.{codes, table}
use ycmd_cpp.Tests.Requests.{ascii}
use ycmd_cpp.Tests.Handlers.{one_line, request, no_answer, wrapped, wrap_request, request_filetype}
use ycmd_cpp.System.{System, start, delivered, Steps, notified, no_steps, one_step}
use ycmd_cpp.System.Invariant.{IsValid, start-Steps-IsValid}
use ycmd_cpp.System.Offered.{
  after_parse, handle_event_notification-after_parse, IsBuffer, Offers, buffer-Offers,
}
use ycmd_cpp.System.Defined.{event-completion_defined}
use ycmd_cpp.Handlers.Completions.{
  Server, Handled, handle_event_notification, handle_completions, reply_kind, notify_semantic,
  clangd, completer_for_request,
}
use ycmd_cpp.Handlers.Completions.Laws.{is_undefined, is_clangd}
use ycmd_cpp.Clangd.Completion.Synced.{IsRequest}
use ycmd_cpp.Clangd.Sync.{Notification}

-- A letter that the table lacks.
abbrev plain : ℕ → Character
plain c = record {
  normal = c ∷ [];
  base = c ∷ [];
  folded_case = c ∷ [];
  swapped_case = c ∷ [];
  is_base = true;
  is_letter = false;
  is_punctuation = false;
  is_uppercase = false;
}

abbrev ab_word : Word
ab_word = record {
  text = codes "ab";
  characters = plain b'a' ∷ plain b'b' ∷ [];
  bytes_present = compute_bytes_present (plain b'a' ∷ plain b'b' ∷ []) (λ _. false);
}

ab_made : make_word insertion_algorithms table (codes "ab") ≡ ok ab_word
unfolding make_word map_decoded bytes_lt insertion_sort
ab_made = refl

make_candidate_ab : make_candidate insertion_algorithms table (codes "ab") ≡ ok (from_word ab_word)
unfolding make_candidate
make_candidate_ab = rw ab_made refl

-- One identifier of one file.
abbrev ab_paths : FilepathToCandidates
ab_paths = (codes "/a", from_word ab_word ∷ []) ∷ []

abbrev ab_database : Database
ab_database = record {
  candidate_repository = [];
  filetype_candidate_map = (codes "c", ab_paths) ∷ [];
}

ab_database-IsSound : IsSound insertion_algorithms table ab_database
unfolding from_word
ab_database-IsSound = (
  nil-IsCache (make_candidate insertion_algorithms table),
  ((((make_candidate_ab, omega arith), tt), tt), tt),
)

ab_paths_found : find (codes "c") ab_database.filetype_candidate_map ≡ some ab_paths
unfolding find bytes_eq
ab_paths_found = refl

compute_candidates-is_offered_example :
    (candidates : List Api.Candidate) × (compute_candidates insertion_algorithms table ab_database 1
        (codes "ab")
        (codes "c")
      ≡ ok candidates)
    × ((text : Bytes)
        → is_offered text candidates
          ≡ (ltb 1 (length text) && any (is_hit_of ab_word text) (all_candidates ab_paths)))
compute_candidates-is_offered_example =
    compute_candidates-is_offered insertion_algorithms table insertion_algorithms-IsLawful
      ab_database 1 (codes "ab") (codes "c") ab_paths ab_word ab_database-IsSound ab_paths_found
      ab_made

-- The language server is initialised.
abbrev initialised : ResponseMessage ℕ
initialised = record { result = some 0; error = none }

IsBuffer-cpp : IsBuffer one_line request (codes "cpp") (codes "ab" ∷ [])
unfolding identifiers_from_buffer bytes_eq find
IsBuffer-cpp = (record { filetypes = codes "cpp" ∷ []; contents = codes "ab" }, refl, refl, refl)

abbrev after_cpp : Server × List Notification
after_cpp =
    after_parse insertion_algorithms table one_line ascii length (start 2 0).server request
      initialised (codes "cpp") (codes "ab" ∷ [])

event_cpp :
    handle_event_notification insertion_algorithms table one_line ascii length
      (start 2 0).server
      file_ready_to_parse
      request
      initialised
    ≡ some after_cpp
event_cpp =
    handle_event_notification-after_parse insertion_algorithms table one_line ascii length
      (start 2 0).server request initialised (codes "cpp") (codes "ab" ∷ []) IsBuffer-cpp

request-IsRequest : IsRequest request
unfolding find
request-IsRequest = ((refl, tt), (refl, tt))

abbrev opened : System
opened = delivered after_cpp.0 after_cpp.1 (start 2 0).documents

Steps-opened : Steps insertion_algorithms table one_line ascii length ℕ (start 2 0) opened
unfolding start
Steps-opened =
    one_step (start 2 0) opened opened
      (notified (start 2 0) file_ready_to_parse request initialised after_cpp.0 after_cpp.1
        request-IsRequest event_cpp)
      (no_steps opened)

start-Steps-IsValid_example : IsValid insertion_algorithms table one_line ascii length opened
start-Steps-IsValid_example =
    start-Steps-IsValid insertion_algorithms table one_line ascii length 2 0 opened Steps-opened

-- The completion that has no defined result before the event.
abbrev completed_cpp : Handled
completed_cpp =
    reply_kind insertion_algorithms table one_line ascii length clangd opened.server request wrapped
      false no_answer

completion_cpp :
    handle_completions insertion_algorithms table one_line ascii length opened.server request false
      no_answer
    ≡ some completed_cpp
unfolding handle_completions completer_for_request bytes_eq start notify_semantic
completion_cpp = rw (handle_completions, wrap_request) refl

cpp-is_clangd : is_clangd (completer_for_request (codes "cpp")) ≡ true
unfolding completer_for_request bytes_eq
cpp-is_clangd = refl

event-completion_defined_example : is_undefined completed_cpp.reply ≡ false
event-completion_defined_example =
    event-completion_defined insertion_algorithms table one_line ascii length (start 2 0) opened
      file_ready_to_parse request initialised (codes "cpp") after_cpp request_filetype cpp-is_clangd
      event_cpp (no_steps opened) request false no_answer completed_cpp completion_cpp

-- The same buffer in a file that no semantic completer is for.
abbrev request_c : SimpleRequest
request_c = record {
  line_num = 1;
  column_num = 3;
  filepath = codes "/a";
  file_data = (codes "/a", record { filetypes = codes "c" ∷ []; contents = codes "ab" }) ∷ [];
  completer_target = [];
  working_dir = [];
}

abbrev wrapped_c : Wrapped ascii
wrapped_c = record {
  filetype = codes "c";
  column = 3;
  start = 1;
  start_byte = 1;
  text = codes "ab";
  text_bytes = codes "ab";
}

wrap-request_c : wrap ascii one_line request_c ≡ some wrapped_c
unfolding wrap bytes_eq identifier_regex_for_filetype
wrap-request_c = refl

IsBuffer-c : IsBuffer one_line request_c (codes "c") (codes "ab" ∷ [])
unfolding identifiers_from_buffer bytes_eq find
IsBuffer-c = (record { filetypes = codes "c" ∷ []; contents = codes "ab" }, refl, refl, refl)

ab_candidates :
    map_decoded (make_candidate insertion_algorithms table) (map clip (codes "ab" ∷ []))
    ≡ ok (from_word ab_word ∷ [])
unfolding map_decoded clip make_candidate
ab_candidates = rw ab_made refl

ab-is_hit : is_hit ab_word (from_word ab_word) ≡ true
unfolding from_word is_empty contains_bytes xor compute_bytes_present is_subsequence
    query_match_result matches_smart bytes_eq
ab-is_hit = refl

c-is_clangd : is_clangd (completer_for_request (codes "c")) ≡ false
unfolding completer_for_request bytes_eq
c-is_clangd = refl

ab_enough : ltb 2 (start 2 0).server.min_num_of_chars_for_completion ≡ false
unfolding start
ab_enough = refl

ab_long : (start 2 0).server.min_num_identifier_candidate_chars < 2
unfolding start
ab_long = omega arith

ab_listed : any (λ i. bytes_eq i (codes "ab")) (codes "ab" ∷ []) ≡ true
unfolding bytes_eq
ab_listed = refl

buffer-Offers_example :
    (after : Server × List Notification) × (handle_event_notification insertion_algorithms table
        one_line ascii length
        (start 2 0).server
        file_ready_to_parse
        request_c
        initialised
      ≡ some after)
    × (handled : Handled) × (handle_completions insertion_algorithms table one_line ascii length
          after.0 request_c false no_answer
        ≡ some handled)
    × Offers (codes "ab") handled.reply
buffer-Offers_example =
    buffer-Offers insertion_algorithms table one_line ascii length insertion_algorithms-IsLawful 2 0
      (start 2 0) (no_steps (start 2 0)) request_c initialised (codes "c") (codes "ab" ∷ [])
      (from_word ab_word ∷ []) IsBuffer-c ab_candidates request_c no_answer wrapped_c ab_word
      (codes "ab") (from_word ab_word) wrap-request_c refl c-is_clangd ab_enough ab_made ab_listed
      ab_long (omega arith) make_candidate_ab ab-is_hit
