-- ===== src/System/Offered.antt =====
-- An event with a buffer, and a completion after it.
use mathlib.Core.Path.{subst}
use ycmd_cpp.Base.{
  ℕ, ◌<◌, ◌≤◌, ◌≡◌, refl, ◌∙◌, true, false, some, List, [], map, any, arith, ltb, length, Bytes,
  bytes_eq, bytes_eq_refl, find, get_elem?,
}
use ycmd_cpp.Api
use ycmd_cpp.Api.{SimpleRequest, EventName, FileData, file_ready_to_parse}
use ycmd_cpp.CodePoint.{Table}
use ycmd_cpp.CodePoint.Decode.{ok, map_decoded}
use ycmd_cpp.Std.{Algorithms, IsLawful}
use ycmd_cpp.Word.{Word, make_word}
use ycmd_cpp.Candidate.{Candidate, make_candidate}
use ycmd_cpp.Repository.{clip}
use ycmd_cpp.Identifiers.{Regexes, identifiers_from_buffer}
use ycmd_cpp.Request.{TextCoding, Wrapped, first_filetype, wrap}
use ycmd_cpp.Lsp.Types.{CompletionsResponse, ResponseMessage}
use ycmd_cpp.Clangd.Sync.{Notification}
use ycmd_cpp.IdentifierDatabase.Store.{candidate_set, recreate_identifiers_no_lock}
use ycmd_cpp.IdentifierDatabase.Store.Stored.{IfOk}
use ycmd_cpp.IdentifierDatabase.Store.Sound.{
  IsSound, make_candidate-text, recreate_identifiers_no_lock-IsSound,
}
use ycmd_cpp.IdentifierDatabase.Search.Found.{is_hit, is_hit_of}
use ycmd_cpp.Completers
use ycmd_cpp.Completers.{compute_candidates, notify_file}
use ycmd_cpp.Completers.Offered.{is_offered, compute_candidates-is_offered}
use ycmd_cpp.Handlers.Completions.{
  SemanticCompleterKind, clangd, jedi, no_kind, Server, Reply, completions, completer_for_request,
  notify_semantic, handle_event_notification, reply_found, reply_identifiers, reply_candidates,
  reply_kind, handle_completions, Handled,
}
use ycmd_cpp.Handlers.Completions.Laws.{is_clangd}
use ycmd_cpp.System.{System, start, Steps}
use ycmd_cpp.System.Invariant.{start-Steps-IsValid}
use ycmd_cpp.System.Buffer.{any-candidate_set, stored-identifier, clip_short}

-- The reply offers the text.
abbrev pub Offers : Bytes → Reply → Type 0
Offers text reply =
    (response : Api.CompletionsResponse) × (reply ≡ completions response)
    × (is_offered text response.completions ≡ true)

notify_semantic-options :
    {R : Type 0} (xxh64 : Bytes → ℕ) (kind : SemanticCompleterKind) (server : Server)
    (event : EventName) (req : SimpleRequest) (response : ResponseMessage R)
    → (let after = (notify_semantic xxh64 kind server event req response).0 in
        (after.min_num_of_chars_for_completion ≡ server.min_num_of_chars_for_completion)
        × (after.min_num_identifier_candidate_chars ≡ server.min_num_identifier_candidate_chars))
unfolding notify_semantic
notify_semantic-options xxh64 clangd server event req response = (refl, refl)
notify_semantic-options xxh64 jedi server event req response = (refl, refl)
notify_semantic-options xxh64 no_kind server event req response = (refl, refl)

-- The file of the request with its first type, and what the expression finds in it.
abbrev pub IsBuffer : Regexes → SimpleRequest → Bytes → List Bytes → Type 0
IsBuffer regexes req filetype identifiers =
    (file : FileData) × (find req.filepath req.file_data ≡ some file)
    × (get_elem? file.filetypes 0 ≡ some filetype)
    × (identifiers_from_buffer regexes file ≡ some identifiers)

module _ (std : Algorithms) (table : Table) (regexes : Regexes) (coding : TextCoding)
    (xxh64 : Bytes → ℕ) where
  -- The server after the event.
  abbrev pub after_parse :
      {R : Type 0}
      → Server
      → SimpleRequest
      → ResponseMessage R
      → Bytes
      → List Bytes
      → Server × List Notification
  after_parse server req response filetype identifiers =
      let sent =
        notify_semantic xxh64 (completer_for_request filetype) server file_ready_to_parse req
          response in
      let db =
        (recreate_identifiers_no_lock std table server.database identifiers filetype
          req.filepath).0 in
      (record sent.0 { database = db }, sent.1)

  pub handle_event_notification-after_parse :
      {R : Type 0} (server : Server) (req : SimpleRequest) (response : ResponseMessage R)
      (filetype : Bytes) (identifiers : List Bytes)
      → IsBuffer regexes req filetype identifiers
      → handle_event_notification std table regexes coding xxh64 server file_ready_to_parse req
          response
        ≡ some (after_parse server req response filetype identifiers)
  unfolding handle_event_notification Completers.handle_event_notification first_filetype
      notify_file
  handle_event_notification-after_parse server req response filetype identifiers (file, e, f, g) =
      rw
        (
          handle_event_notification, first_filetype, Completers.handle_event_notification, e, f,
          notify_file, g,
        )
        refl

  reply_kind-identifiers :
      (kind : SemanticCompleterKind) (server : Server) (req : SimpleRequest)
      (wrapped : Wrapped coding) (response : ResponseMessage CompletionsResponse)
      → is_clangd kind ≡ false
      → (reply_kind std table regexes coding xxh64 kind server req wrapped false response).reply
        ≡ reply_identifiers std table regexes coding xxh64 server wrapped
  unfolding reply_kind reply_candidates
  reply_kind-identifiers clangd server req wrapped response h = ground (arith, h)
  reply_kind-identifiers jedi server req wrapped response h = refl
  reply_kind-identifiers no_kind server req wrapped response h = refl

  -- A completion that is not for clangd, on a server whose candidate sets of the type have a hit.
  handle_completions-Offers :
      IsLawful std
      → (server : Server) (req : SimpleRequest) (response : ResponseMessage CompletionsResponse)
        (wrapped : Wrapped coding) (query : Word) (filepath identifier : Bytes)
      → IsSound std table server.database
      → wrap coding regexes req ≡ some wrapped
      → is_clangd (completer_for_request wrapped.filetype) ≡ false
      → ltb (length wrapped.text) server.min_num_of_chars_for_completion ≡ false
      → make_word std table wrapped.text_bytes ≡ ok query
      → ltb server.min_num_identifier_candidate_chars (length identifier) ≡ true
      → any
          (is_hit_of query identifier)
          (candidate_set server.database.filetype_candidate_map wrapped.filetype filepath)
        ≡ true
      → (handled : Handled) × (handle_completions std table regexes coding xxh64 server req false
            response
          ≡ some handled)
        × Offers identifier handled.reply
  unfolding handle_completions reply_identifiers reply_found
  handle_completions-Offers law server req response wrapped query filepath identifier sound e kind
        enough word long h =
      let db = server.database in
      let (paths, known, found) =
        any-candidate_set (is_hit_of query identifier) db.filetype_candidate_map wrapped.filetype
          filepath h in
      let (candidates, computed, offers) =
        compute_candidates-is_offered std table law db server.min_num_identifier_candidate_chars
          wrapped.text_bytes wrapped.filetype paths query sound known word in
      let reply : Api.CompletionsResponse = record {
        completions = candidates;
        completion_start_column = wrapped.start_byte;
        errors = [];
      } in
      (
        reply_kind std table regexes coding xxh64 (completer_for_request wrapped.filetype) server
            req wrapped false response,
        rw (handle_completions, e, enough) refl,
        (
          reply,
          reply_kind-identifiers (completer_for_request wrapped.filetype) server req wrapped
                response kind
              ∙ rw (reply_identifiers, computed) refl,
          offers identifier ∙ rw (long, found) refl,
        ),
      )

  -- Once the server, after any steps from its start, is told that a buffer is ready to parse, a
  -- completion for the file's type succeeds and offers each of the buffer's identifiers that the
  -- query hits and that is long enough, up to 80 bytes. Every identifier of the buffer can be read;
  -- the type is not one for clangd; semantic completion is not asked for; and the query is a word
  -- that is long enough.
  pub buffer-Offers :
      {R : Type 0}
      → IsLawful std
      → (chars identifier_chars : ℕ) (system : System)
      → Steps std table regexes coding xxh64 R (start chars identifier_chars) system
      → (event : SimpleRequest) (answer : ResponseMessage R) (filetype : Bytes)
        (identifiers : List Bytes) (candidates : List Candidate)
      → IsBuffer regexes event filetype identifiers
      → map_decoded (make_candidate std table) (map clip identifiers) ≡ ok candidates
      → (req : SimpleRequest) (response : ResponseMessage CompletionsResponse)
        (wrapped : Wrapped coding) (query : Word) (identifier : Bytes) (c : Candidate)
      → wrap coding regexes req ≡ some wrapped
      → wrapped.filetype ≡ filetype
      → is_clangd (completer_for_request wrapped.filetype) ≡ false
      → ltb (length wrapped.text) system.server.min_num_of_chars_for_completion ≡ false
      → make_word std table wrapped.text_bytes ≡ ok query
      → any (λ i. bytes_eq i identifier) identifiers ≡ true
      → system.server.min_num_identifier_candidate_chars < length identifier
      → length identifier ≤ 80
      → make_candidate std table identifier ≡ ok c
      → is_hit query c ≡ true
      → (after : Server × List Notification) × (handle_event_notification std table regexes coding
            xxh64 system.server file_ready_to_parse event answer
          ≡ some after)
        × (handled : Handled) × (handle_completions std table regexes coding xxh64 after.0 req false
              response
            ≡ some handled)
        × Offers identifier handled.reply
  buffer-Offers law chars identifier_chars system steps event answer filetype identifiers candidates
        buffer all req response wrapped query identifier c e same kind enough word has long short
        made hit =
      let sound =
        start-Steps-IsValid std table regexes coding xxh64 chars identifier_chars system steps in
      let after = after_parse system.server event answer filetype identifiers in
      let options =
        notify_semantic-options xxh64 (completer_for_request filetype) system.server
          file_ready_to_parse event answer in
      let clipped = clip_short identifier short in
      let text : c.text ≡ identifier =
        subst (IfOk (λ d. d.text ≡ identifier)) made (make_candidate-text std table identifier) in
      let (handled, completed, offers) =
        handle_completions-Offers law after.0 req response wrapped query event.filepath identifier
          (recreate_identifiers_no_lock-IsSound std table system.server.database identifiers
            filetype event.filepath sound.0)
          e kind (rw options.0 enough) word (rw options.1 (ground (arith, long)))
          (rw same (
            stored-identifier std table system.server.database identifiers filetype event.filepath
              identifier candidates c (is_hit_of query identifier) sound.0 all has (rw clipped made)
              (rw (hit, text, bytes_eq_refl identifier) refl))) in
      (
        after,
        handle_event_notification-after_parse system.server event answer filetype identifiers
            buffer,
        handled,
        completed,
        offers,
      )
