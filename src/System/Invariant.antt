-- ===== src/System/Invariant.antt =====
-- What holds of the server after any steps.
use mathlib.Core.Path.{subst}
use ycmd_cpp.Base.{ℕ, ◌≡◌, Bool, true, false, Option, none, some, ◌>>=◌, find, Bytes, if◌then◌else◌}
use ycmd_cpp.Api.{SimpleRequest, EventName}
use ycmd_cpp.CodePoint.{Table}
use ycmd_cpp.Std.{Algorithms}
use ycmd_cpp.Identifiers.{Regexes}
use ycmd_cpp.IdentifierDatabase.Store.{candidate_set}
use ycmd_cpp.IdentifierDatabase.Store.Sound.{IsSound}
use ycmd_cpp.Request.{TextCoding, first_filetype, wrap}
use ycmd_cpp.Lsp.Types.{CompletionsResponse, ResponseMessage}
use ycmd_cpp.Clangd.Sync.Documents.{notify_all}
use ycmd_cpp.Clangd.Completion.Synced.{IsRequest}
use ycmd_cpp.Completers
use ycmd_cpp.Completers.{notify_file}
use ycmd_cpp.Handlers.Completions.{
  unchanged, empty_array, completer_for_request, handle_event_notification, reply_kind,
  handle_completions,
}
use ycmd_cpp.Handlers.Completions.Laws.{Holds, Holds-bind}
use ycmd_cpp.Candidate.{make_candidate}
use ycmd_cpp.Repository.Laws.{nil-IsCache}
use ycmd_cpp.System.Preserves.{
  AllSynced, handle_event_notification-IsSound, notify_semantic-AllSynced, reply_kind-AllSynced,
}
use ycmd_cpp.System.{System, delivered, start, Step, notified, completed, Steps, no_steps, one_step}

-- The result of a computation that has the property.
pub Holds-some : {A : Type 0} (P : A → Type 0) (o : Option A) (a : A) → o ≡ some a → Holds P o → P a
Holds-some P o a e h = subst (Holds P) e h

-- A computation goes on with a result that has the property.
Holds-then :
    {A B : Type 0} (P : A → Type 0) (Q : B → Type 0) (o : Option A) (f : A → Option B)
    → Holds P o
    → ((a : A) → P a → Holds Q (f a))
    → Holds Q (o >>= f)
Holds-then P Q none f p h = tt
Holds-then P Q (some a) f p h = h a p

branch-lem : {A : Type 0} (P : A → Type 0) (b : Bool) (x y : A) → P x → P y → P (if b then x else y)
branch-lem P true x y p q = p
branch-lem P false x y p q = q

module _ (std : Algorithms) (table : Table) (regexes : Regexes) (coding : TextCoding)
    (xxh64 : Bytes → ℕ) where
  -- The identifiers are sound, and clangd's documents are those of the completer.
  abbrev pub IsValid : System → Type 0
  IsValid system =
      IsSound std table system.server.database
      × AllSynced xxh64 system.server.clangd_completer system.documents

  notified-IsValid :
      {R : Type 0} (system : System) (event : EventName) (req : SimpleRequest)
      (response : ResponseMessage R)
      → IsRequest req
      → IsValid system
      → Holds
          (λ r. IsValid (delivered r.0 r.1 system.documents))
          (handle_event_notification std table regexes coding xxh64 system.server event req
            response)
  unfolding handle_event_notification
  notified-IsValid system event req response valid (sound, synced) =
      Holds-bind _ (first_filetype req) _ (λ filetype.
        Holds-then (λ noted. IsSound std table noted.0) _
          (Completers.handle_event_notification std table regexes system.server.database event req)
          _
          (handle_event_notification-IsSound std table regexes system.server.database event req
            sound)
          (λ noted kept. (
            kept,
            notify_semantic-AllSynced xxh64 (completer_for_request filetype) system.server event req
                response system.documents valid synced,
          )))

  handled-IsValid :
      (system : System) (req : SimpleRequest) (force_semantic : Bool)
      (response : ResponseMessage CompletionsResponse)
      → IsRequest req
      → IsValid system
      → Holds
          (λ r. IsValid (delivered r.server r.notifications system.documents))
          (handle_completions std table regexes coding xxh64 system.server req force_semantic
            response)
  unfolding handle_completions notify_all
  handled-IsValid system req force_semantic response valid (sound, synced) =
      Holds-bind _ (wrap coding regexes req) _ (λ wrapped.
        let kind = completer_for_request wrapped.filetype in
        let known =
          reply_kind-AllSynced std table regexes coding xxh64 kind system.server req wrapped
            force_semantic response system.documents valid synced in
        branch-lem (λ r. IsValid (delivered r.server r.notifications system.documents)) _
          (unchanged system.server empty_array)
          (reply_kind std table regexes coding xxh64 kind system.server req wrapped force_semantic
            response)
          (sound, synced) (rw known.0 sound, known.1))

  Step-IsValid :
      {R : Type 0} (first next : System)
      → Step std table regexes coding xxh64 R first next
      → IsValid first
      → IsValid next
  Step-IsValid first next (notified system event req response server sent valid e) sound =
      Holds-some _ _ (server, sent) e (notified-IsValid system event req response valid sound)
  Step-IsValid first next (completed system req force_semantic response handled valid e) sound =
      Holds-some _ _ handled e (handled-IsValid system req force_semantic response valid sound)

  start-IsValid : (chars identifier_chars : ℕ) → IsValid (start chars identifier_chars)
  unfolding start candidate_set find
  start-IsValid chars identifier_chars = ((nil-IsCache (make_candidate std table), tt), tt)

  Steps-IsValid :
      {R : Type 0} (first last : System)
      → Steps std table regexes coding xxh64 R first last
      → IsValid first
      → IsValid last
  Steps-IsValid from to (no_steps system) sound = sound
  Steps-IsValid from to (one_step first next last step steps) sound =
      Steps-IsValid next last steps (Step-IsValid first next step sound)

  -- Whatever events and completions the server handles from its start, the repository stays a cache,
  -- each candidate of its sets is what its text of at most 80 bytes makes, and each file that is open
  -- in the completer of clangd is a document of the language server with the same version, whose text
  -- has the recorded hash; if every request names each file once, by an absolute path.
  pub start-Steps-IsValid :
      {R : Type 0} (chars identifier_chars : ℕ) (system : System)
      → Steps std table regexes coding xxh64 R (start chars identifier_chars) system
      → IsValid system
  start-Steps-IsValid chars identifier_chars system steps =
      Steps-IsValid (start chars identifier_chars) system steps
        (start-IsValid chars identifier_chars)
