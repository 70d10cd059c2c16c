-- ===== src/Handlers/Completions/Laws.antt =====
-- When the completer of clangd is there, and when a completion uses it without.
use ycmd_cpp.Base.{
  ◌≡◌, refl, ◌∙◌, ℕ, Bool, true, false, Option, none, some, List, [], ◌∷◌, not, ◌&&◌, ◌||◌, arith,
  ltb, length, Bytes, Option-cases, inl, inr, if◌then◌else◌, ◌>>=◌,
}
use ycmd_cpp.Api
use ycmd_cpp.Api.{SimpleRequest, EventName}
use ycmd_cpp.CodePoint.{Table}
use ycmd_cpp.CodePoint.Decode.{Decoded, ok, throw}
use ycmd_cpp.Std.{Algorithms}
use ycmd_cpp.Identifiers.{Regexes}
use ycmd_cpp.Request.{TextCoding, Wrapped, first_filetype, wrap}
use ycmd_cpp.Lsp.Types.{CompletionsResponse, ResponseMessage}
use ycmd_cpp.Completers
use ycmd_cpp.Handlers.Completions.{
  SemanticCompleterKind, Handled, unchanged, clangd, jedi, no_kind, completer_for_request, Server,
  Reply, empty_array, completions, exception, undefined, reply_found, notify_semantic,
  handle_event_notification, reply_identifiers, reply_candidates, reply_kind, handle_completions,
}

abbrev pub has_completer : Server → Bool
has_completer server = elim server.clangd_completer [ none ↦ false | some completer ↦ true ]

abbrev pub is_clangd : SemanticCompleterKind → Bool
is_clangd clangd = true
is_clangd jedi = false
is_clangd no_kind = false

abbrev pub is_undefined : Reply → Bool
is_undefined empty_array = false
is_undefined (completions response) = false
is_undefined exception = false
is_undefined undefined = true

-- The property holds of the result, if there is one.
abbrev pub Holds : {A : Type 0} → (A → Type 0) → Option A → Type 0
Holds P none = Unit
Holds P (some a) = P a

pub Holds-bind :
    {A B : Type 0} (P : B → Type 0) (o : Option A) (f : A → Option B)
    → ((a : A) → Holds P (f a))
    → Holds P (o >>= f)
Holds-bind P none f h = tt
Holds-bind P (some a) f h = h a

reply_found-is_undefined :
    (start_column : ℕ) (found : Decoded (List Api.Candidate))
    → is_undefined (reply_found start_column found) ≡ false
unfolding reply_found
reply_found-is_undefined start_column (throw e) = refl
reply_found-is_undefined start_column (ok candidates) = refl

-- The test for a short query, before what it guards.
branch-is_undefined :
    (server : Server) (force short kind : Bool) (r : Handled)
    → has_completer r.server ≡ has_completer server
    → is_undefined r.reply ≡ (kind && not (has_completer server))
    → (let out = if not force && short then unchanged server empty_array else r in
        (has_completer out.server ≡ has_completer server)
        × (is_undefined out.reply ≡ (kind && not (has_completer server) && (force || not short))))
branch-is_undefined server true short kind r p q = (p, q ∙ ground arith)
branch-is_undefined server false true kind r p q = (refl, ground arith)
branch-is_undefined server false false kind r p q = (p, q ∙ ground arith)

module _ (std : Algorithms) (table : Table) (regexes : Regexes) (coding : TextCoding)
    (xxh64 : Bytes → ℕ) where
  notify_semantic-has_completer :
      {R : Type 0} (kind : SemanticCompleterKind) (server : Server) (event : EventName)
      (req : SimpleRequest) (response : ResponseMessage R)
      → has_completer (notify_semantic xxh64 kind server event req response).0
        ≡ (has_completer server || is_clangd kind)
  unfolding notify_semantic
  notify_semantic-has_completer clangd server event req response = ground arith
  notify_semantic-has_completer jedi server event req response = ground arith
  notify_semantic-has_completer no_kind server event req response = ground arith

  -- After an event the completer of clangd is there if it was before or the file of the event is for
  -- clangd.
  pub handle_event_notification-has_completer :
      {R : Type 0} (server : Server) (event : EventName) (req : SimpleRequest)
      (response : ResponseMessage R) (filetype : Bytes)
      → first_filetype req ≡ some filetype
      → Holds
          (λ r.
            has_completer r.0
            ≡ (has_completer server || is_clangd (completer_for_request filetype)))
          (handle_event_notification std table regexes coding xxh64 server event req response)
  unfolding handle_event_notification
  handle_event_notification-has_completer server event req response filetype e =
      rw (handle_event_notification, e)
        (Holds-bind _
          (Completers.handle_event_notification std table regexes server.database event req) _
          (λ noted.
            notify_semantic-has_completer (completer_for_request filetype) server event req
              response))

  reply_candidates-is_undefined :
      (server : Server) (wrapped : Wrapped coding) (force_semantic : Bool)
      (candidates : List Api.Candidate)
      → is_undefined
          (reply_candidates std table regexes coding xxh64 server wrapped force_semantic candidates)
        ≡ false
  unfolding reply_candidates reply_identifiers
  reply_candidates-is_undefined server wrapped false [] =
      reply_found-is_undefined wrapped.start_byte _
  reply_candidates-is_undefined server wrapped false (c ∷ cs) = refl
  reply_candidates-is_undefined server wrapped true candidates = refl

  reply_kind-is_undefined :
      (kind : SemanticCompleterKind) (server : Server) (req : SimpleRequest)
      (wrapped : Wrapped coding) (force_semantic : Bool)
      (response : ResponseMessage CompletionsResponse)
      → (let r =
            reply_kind std table regexes coding xxh64 kind server req wrapped force_semantic
              response in
          (has_completer r.server ≡ has_completer server)
          × (is_undefined r.reply ≡ (is_clangd kind && not (has_completer server))))
  unfolding reply_kind
  reply_kind-is_undefined clangd server req wrapped force_semantic response =
      elim (Option-cases server.clangd_completer) [
        | inl e ↦ rw (reply_kind, e) (rw e refl, refl)
        | inr (completer, e) ↦
            rw (reply_kind, e) (refl, reply_candidates-is_undefined server wrapped force_semantic _)
      ]
  reply_kind-is_undefined jedi server req wrapped force_semantic response =
      (refl, reply_candidates-is_undefined server wrapped force_semantic [])
  reply_kind-is_undefined no_kind server req wrapped force_semantic response =
      (refl, reply_candidates-is_undefined server wrapped force_semantic [])

  -- A completion keeps the completer. It is undefined exactly if the file is for clangd, the completer
  -- is not there, and the query is long enough or semantic completion is asked for.
  pub handle_completions-is_undefined :
      (server : Server) (req : SimpleRequest) (force_semantic : Bool)
      (response : ResponseMessage CompletionsResponse) (wrapped : Wrapped coding)
      → wrap coding regexes req ≡ some wrapped
      → Holds
          (λ r.
            (has_completer r.server ≡ has_completer server)
            × (is_undefined r.reply ≡ (
                is_clangd (completer_for_request wrapped.filetype)
                && not (has_completer server)
                && (force_semantic
                    || not (ltb (length wrapped.text) server.min_num_of_chars_for_completion)))))
          (handle_completions std table regexes coding xxh64 server req force_semantic response)
  unfolding handle_completions
  handle_completions-is_undefined server req force_semantic response wrapped e =
      let known =
        reply_kind-is_undefined (completer_for_request wrapped.filetype) server req wrapped
          force_semantic response in
      rw (handle_completions, e)
        (branch-is_undefined server force_semantic
          (ltb (length wrapped.text) server.min_num_of_chars_for_completion)
          (is_clangd (completer_for_request wrapped.filetype)) _ known.0 known.1)
