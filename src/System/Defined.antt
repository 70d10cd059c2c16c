-- ===== src/System/Defined.antt =====
-- When a completion is defined.
use mathlib.Core.Option.{none-ne-some}
use ycmd_cpp.Base.{
  ℕ, ◌≡◌, refl, sym, ◌∙◌, Bool, true, false, ◌||◌, some, List, arith, Bytes, Option-cases, inl, inr,
}
use ycmd_cpp.Api.{SimpleRequest, EventName}
use ycmd_cpp.CodePoint.{Table}
use ycmd_cpp.Std.{Algorithms}
use ycmd_cpp.Identifiers.{Regexes}
use ycmd_cpp.Request.{TextCoding, first_filetype, wrap}
use ycmd_cpp.Lsp.Types.{CompletionsResponse, ResponseMessage}
use ycmd_cpp.Clangd.Sync.{Notification}
use ycmd_cpp.Handlers.Completions.{
  Server, Handled, completer_for_request, handle_event_notification, handle_completions,
}
use ycmd_cpp.Handlers.Completions.Laws.{
  has_completer, is_clangd, is_undefined, handle_event_notification-has_completer,
  handle_completions-is_undefined,
}
use ycmd_cpp.System.{System, delivered, notified, completed, Steps, no_steps, one_step}
use ycmd_cpp.System.Invariant.{Holds-some}

module _ (std : Algorithms) (table : Table) (regexes : Regexes) (coding : TextCoding)
    (xxh64 : Bytes → ℕ) where
  -- An event does not lose the completer, and one for a file of clangd makes it.
  event-has_completer :
      {R : Type 0} (server : Server) (event : EventName) (req : SimpleRequest)
      (response : ResponseMessage R) (after : Server × List Notification)
      → handle_event_notification std table regexes coding xxh64 server event req response
        ≡ some after
      → (filetype : Bytes) × (first_filetype req ≡ some filetype)
        × (has_completer after.0
            ≡ (has_completer server || is_clangd (completer_for_request filetype)))
  unfolding handle_event_notification
  event-has_completer server event req response after e = elim (Option-cases (first_filetype req)) [
    | inl missing ↦
        absurd (none-ne-some after (sym (rw (handle_event_notification, missing) refl) ∙ e))
    | inr (filetype, found) ↦ (
      filetype,
      found,
      Holds-some _ _ after e (
          handle_event_notification-has_completer std table regexes coding xxh64 server event req
            response filetype found),
    )
  ]

  completion-has_completer :
      (server : Server) (req : SimpleRequest) (force_semantic : Bool)
      (response : ResponseMessage CompletionsResponse) (handled : Handled)
      → handle_completions std table regexes coding xxh64 server req force_semantic response
        ≡ some handled
      → (has_completer handled.server ≡ has_completer server)
        × (has_completer server ≡ true → is_undefined handled.reply ≡ false)
  unfolding handle_completions
  completion-has_completer server req force_semantic response handled e =
      elim (Option-cases (wrap coding regexes req)) [
        | inl missing ↦
            absurd (none-ne-some handled (sym (rw (handle_completions, missing) refl) ∙ e))
        | inr (wrapped, found) ↦
            (let known = Holds-some _ _ handled e (
                handle_completions-is_undefined std table regexes coding xxh64 server req
                  force_semantic response wrapped found) in
              (known.0, λ h. known.1 ∙ rw h (ground arith)))
      ]

  Steps-has_completer :
      {R : Type 0} (first last : System)
      → Steps std table regexes coding xxh64 R first last
      → has_completer first.server ≡ true
      → has_completer last.server ≡ true
  Steps-has_completer from to (no_steps system) h = h
  Steps-has_completer from to
        (one_step first next last (notified system event req response server sent valid e) steps)
        h =
      let (filetype, found, known) =
        event-has_completer system.server event req response (server, sent) e in
      Steps-has_completer next last steps (known ∙ rw h refl)
  Steps-has_completer from to
        (one_step first next last
          (completed system req force_semantic response handled valid e)
          steps)
        h =
      Steps-has_completer next last steps
        ((completion-has_completer system.server req force_semantic response handled e).0 ∙ h)

  -- After an event with a file for clangd, whatever events and completions follow, no completion uses
  -- the completer of clangd without one.
  pub event-completion_defined :
      {R : Type 0} (first last : System) (event : EventName) (req : SimpleRequest)
      (response : ResponseMessage R) (filetype : Bytes) (after : Server × List Notification)
      → first_filetype req ≡ some filetype
      → is_clangd (completer_for_request filetype) ≡ true
      → handle_event_notification std table regexes coding xxh64 first.server event req response
        ≡ some after
      → Steps std table regexes coding xxh64 R (delivered after.0 after.1 first.documents) last
      → (query : SimpleRequest) (force_semantic : Bool)
        (answer : ResponseMessage CompletionsResponse) (handled : Handled)
      → handle_completions std table regexes coding xxh64 last.server query force_semantic answer
        ≡ some handled
      → is_undefined handled.reply ≡ false
  event-completion_defined first last event req response filetype after found kind e steps query
        force_semantic answer handled done =
      let known = Holds-some _ _ after e (
        handle_event_notification-has_completer std table regexes coding xxh64 first.server event
          req response filetype found) in
      let there = Steps-has_completer _ last steps (known ∙ rw kind (ground arith)) in
      (completion-has_completer last.server query force_semantic answer handled done).1 there
