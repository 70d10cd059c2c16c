-- ===== src/Clangd/Params/Laws.antt =====
-- What is sent, read by the names of the protocol.
use ycmd_cpp.Base.{
  ℕ, ◌≡◌, refl, sym, ap, Option-cases, inl, inr, ◌∙◌, Option, none, some, List, [], ◌∷◌, ◌>>=◌,
  if◌then◌else◌, Bytes, bytes_eq,
}
use mathlib.Core.Option.{some-injective, none-ne-some}
use ycmd_cpp.Json.{JsonLibrary, IsLawful, Field, required}
use ycmd_cpp.Json.Laws.{IsCodec, found_in, at-to_json_fields_found}
use ycmd_cpp.Clangd.Completion.{bytes}
use ycmd_cpp.Clangd.Sync.{TextDocumentItem, Notification, did_open, did_change, did_close}
use ycmd_cpp.Clangd.Messages.{
  json_values, notification_fields, notification_message, send_notification,
}
use ycmd_cpp.Clangd.Messages.Laws.{IsTyped}
use ycmd_cpp.Clangd.Params.{
  Codecs, struct, string_field, number_field, did_open_params, did_change_params, did_close_params,
  notification_json,
}

pub record IsFaithful {lib : JsonLibrary} (codecs : Codecs lib) : Type 0 where
  pub typed : IsTyped codecs.strings codecs.numbers
  pub vectors-IsCodec : IsCodec codecs.vectors

module _ (lib : JsonLibrary) (codecs : Codecs lib) where
  abbrev pub string_at : lib.Json → Bytes → Option Bytes
  string_at j name = lib.at j name >>= codecs.strings.get

  abbrev pub number_at : lib.Json → Bytes → Option ℕ
  number_at j name = lib.at j name >>= codecs.numbers.get

  -- The whole text of the only change.
  abbrev pub only_text : List lib.Json → Option Bytes
  only_text [] = none
  only_text (change ∷ []) = string_at change (bytes "text")
  only_text (change ∷ _ ∷ _) = none

  -- The rest of a notification, by its method.
  unfoldable pub read_document : Bytes → lib.Json → lib.Json → Bytes → Option Notification
  unfolding bytes_eq
  read_document method params document uri =
      if bytes_eq method (bytes "textDocument/didOpen")
      then (do
        language_id ← string_at document (bytes "languageId")
        version ← number_at document (bytes "version")
        text ← string_at document (bytes "text")
        some (
            did_open (record {
              uri = uri;
              language_id = some language_id;
              version = version;
              text = text;
            })))
      else if bytes_eq method (bytes "textDocument/didChange")
      then (do
        version ← number_at document (bytes "version")
        changes ← lib.at params (bytes "contentChanges") >>= codecs.vectors.get
        text ← only_text changes
        some (did_change uri version text))
      else if bytes_eq method (bytes "textDocument/didClose")
      then some (did_close uri)
      else none

  -- How a language server reads a notification of document synchronisation.
  unfoldable pub read_notification : lib.Json → Option Notification
  unfolding read_document
  read_notification j = do
    method ← string_at j (bytes "method")
    params ← lib.at j (bytes "params")
    document ← lib.at params (bytes "textDocument")
    uri ← string_at document (bytes "uri")
    read_document method params document uri

  module _ (law : IsLawful lib) (faithful : IsFaithful codecs) where
    -- What stands under a name in a struct.
    pub at-struct :
        (name : Bytes) (fields : List (Bytes × Field lib.Json)) (found : Option lib.Json)
        → found_in lib (json_values lib) law name fields none ≡ found
        → lib.at (struct lib codecs fields) name ≡ found
    at-struct name fields found e =
        at-to_json_fields_found lib (json_values lib) law lib.null name fields
        ∙ ap (found_in lib (json_values lib) law name fields)
            (law.at-is_null lib.null name law.is_null-null)
        ∙ e

    string_at-struct :
        (name : Bytes) (fields : List (Bytes × Field lib.Json)) (s : Bytes)
        → found_in lib (json_values lib) law name fields none ≡ some (codecs.strings.to_json s)
        → string_at (struct lib codecs fields) name ≡ some s
    string_at-struct name fields s e =
        ap (λ o. o >>= codecs.strings.get) (at-struct name fields _ e)
        ∙ faithful.typed.strings-IsCodec.get-to_json s

    number_at-struct :
        (name : Bytes) (fields : List (Bytes × Field lib.Json)) (n : ℕ)
        → found_in lib (json_values lib) law name fields none ≡ some (codecs.numbers.to_json n)
        → number_at (struct lib codecs fields) name ≡ some n
    number_at-struct name fields n e =
        ap (λ o. o >>= codecs.numbers.get) (at-struct name fields _ e)
        ∙ faithful.typed.numbers-IsCodec.get-to_json n

    -- The parts that every notification has.
    read_notification-parts :
        (method uri : Bytes) (fields rest : List (Bytes × Field lib.Json)) (document : lib.Json)
        → document ≡ struct lib codecs (string_field lib codecs (bytes "uri") uri ∷ fields)
        → found_in lib
            (json_values lib)
            law
            (bytes "uri")
            fields
            (some (codecs.strings.to_json uri))
          ≡ some (codecs.strings.to_json uri)
        → found_in lib (json_values lib) law (bytes "textDocument") rest (some document)
          ≡ some document
        → (let params = struct lib codecs ((bytes "textDocument", required document) ∷ rest) in
            read_notification (send_notification lib codecs.strings codecs.numbers method params)
            ≡ read_document method params document uri)
    unfolding read_notification send_notification notification_message bytes_eq
    read_notification-parts method uri fields rest document e own only =
        let params = struct lib codecs ((bytes "textDocument", required document) ∷ rest) in
        let message = notification_fields lib codecs.strings codecs.numbers method (some params) in
        let named = string_at-struct (bytes "method") message method refl in
        let has_params = at-struct (bytes "params") message (some params) refl in
        let has_document =
          at-struct (bytes "textDocument") ((bytes "textDocument", required document) ∷ rest)
            (some document) only in
        let has_uri =
          string_at-struct (bytes "uri") (string_field lib codecs (bytes "uri") uri ∷ fields) uri
            own in
        rw (read_notification, named, has_params, has_document, e, has_uri) refl

    read_did_open :
        (uri language_id : Bytes) (version : ℕ) (text : Bytes)
        → (let item : TextDocumentItem = record {
          uri = uri;
          language_id = some language_id;
          version = version;
          text = text;
        } in
            read_notification (
              send_notification lib codecs.strings codecs.numbers
                (bytes "textDocument/didOpen")
                (did_open_params lib codecs item language_id))
            ≡ some (did_open item))
    unfolding did_open_params bytes_eq read_document
    read_did_open uri language_id version text =
        let fields =
          string_field lib codecs (bytes "languageId") language_id
          ∷ number_field lib codecs (bytes "version") version
          ∷ string_field lib codecs (bytes "text") text
          ∷ [] in
        let all = string_field lib codecs (bytes "uri") uri ∷ fields in
        read_notification-parts (bytes "textDocument/didOpen") uri fields [] (struct lib codecs all)
          refl refl refl
        ∙ rw
            (
              read_document,
              string_at-struct (bytes "languageId") all language_id refl,
              number_at-struct (bytes "version") all version refl,
              string_at-struct (bytes "text") all text refl,
            )
            refl

    read_did_change :
        (uri : Bytes) (version : ℕ) (text : Bytes)
        → read_notification (
            send_notification lib codecs.strings codecs.numbers
              (bytes "textDocument/didChange")
              (did_change_params lib codecs uri version text))
          ≡ some (did_change uri version text)
    unfolding did_change_params bytes_eq read_document
    read_did_change uri version text =
        let fields = number_field lib codecs (bytes "version") version ∷ [] in
        let all = string_field lib codecs (bytes "uri") uri ∷ fields in
        let change = string_field lib codecs (bytes "text") text ∷ [] in
        let changes =
          (
            bytes "contentChanges",
            required (codecs.vectors.to_json (struct lib codecs change ∷ [])),
          )
          ∷ [] in
        read_notification-parts (bytes "textDocument/didChange") uri fields changes
          (struct lib codecs all) refl refl refl
        ∙ rw
            (
              read_document,
              number_at-struct (bytes "version") all version refl,
              at-struct (bytes "contentChanges")
                  ((bytes "textDocument", required (struct lib codecs all)) ∷ changes) _ refl,
              faithful.vectors-IsCodec.get-to_json (struct lib codecs change ∷ []),
              string_at-struct (bytes "text") change text refl,
            )
            refl

    read_did_close :
        (uri : Bytes)
        → read_notification (
            send_notification lib codecs.strings codecs.numbers
              (bytes "textDocument/didClose")
              (did_close_params lib codecs uri))
          ≡ some (did_close uri)
    unfolding did_close_params read_document bytes_eq
    read_did_close uri =
        read_notification-parts (bytes "textDocument/didClose") uri [] []
          (struct lib codecs (string_field lib codecs (bytes "uri") uri ∷ [])) refl refl refl

    -- A server that reads a notification of document synchronisation by the names of the protocol gets
    -- what was sent: the URI, the language, the version and the text.
    pub read_notification-notification_json :
        (n : Notification) (j : lib.Json)
        → notification_json lib codecs n ≡ some j
        → read_notification j ≡ some n
    unfolding notification_json
    read_notification-notification_json (did_open item) j e = elim (Option-cases item.language_id) [
      | inl missing ↦ absurd (none-ne-some j (sym (rw (notification_json, missing) refl) ∙ e))
      | inr (language_id, named) ↦
          (let sent =
              send_notification lib codecs.strings codecs.numbers (bytes "textDocument/didOpen")
                (did_open_params lib codecs item language_id) in
            let p : notification_json lib codecs (did_open item) ≡ some sent =
              rw (notification_json, named) refl in
            let same : did_open (record item { language_id = some language_id }) ≡ did_open item =
              ap (λ o. did_open (record item { language_id = o })) (sym named) in
            rw (sym (some-injective sent j (sym p ∙ e)))
              (read_did_open item.uri language_id item.version item.text ∙ ap some same))
    ]
    read_notification-notification_json (did_change uri version text) j e =
        rw (sym (some-injective _ j e)) (read_did_change uri version text)
    read_notification-notification_json (did_close uri) j e =
        rw (sym (some-injective _ j e)) (read_did_close uri)
