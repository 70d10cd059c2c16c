-- ===== src/Clangd/Messages.antt =====
-- Messages as JSON: `send_request`, `send_reply`, `send_reject` and `send_notification` of
-- src/lsp/lsp.hpp with the structs of src/lsp/lsp_types.hpp that they fill, and the tests by which
-- `message_pump` of src/completers/cpp/clangd_completer.cpp tells messages apart. The conversions of
-- strings and of numbers are the library's, and that of diagnostics is an argument.
pub mod Laws
pub mod Replies
use ycmd_cpp.Base.{
  ℕ, true, false, Option, none, some, List, [], ◌∷◌, ◌>>=◌, if◌then◌else◌, Bytes, bytes_eq,
}
use ycmd_cpp.Json.{JsonLibrary, Codec, Field, required, optional, to_json_fields}
use ycmd_cpp.Clangd.Completion.{bytes}
use ycmd_cpp.Clangd.Pending.{RequestId, text, number, Incoming, incoming}

-- A value that is JSON already.
abbrev pub json_values : (lib : JsonLibrary) → Codec lib lib.Json
json_values lib = record { to_json = λ j. j; get = λ j. some j }

-- `variant_from_json`: an alternative that cannot be read leaves the data as it is.
unfoldable pub variant_from_json {ℓ} :
    {lib : JsonLibrary} {T : Type 0} {V : Type ℓ} → Codec lib T → (T → V) → lib.Json → V → V
variant_from_json codec inject j old = elim (codec.get j) [ none ↦ old | some v ↦ inject v ]

module _ (lib : JsonLibrary) (strings : Codec lib Bytes) (numbers : Codec lib ℕ) where
  unfoldable pub id_to_json : RequestId → lib.Json
  id_to_json (text s) = strings.to_json s
  id_to_json (number n) = numbers.to_json n

  -- The alternatives in order, from a variant that holds the empty string.
  unfoldable pub id_from_json : lib.Json → RequestId
  unfolding variant_from_json
  id_from_json j = variant_from_json numbers number j (variant_from_json strings text j (text []))

  -- `RequestMessage`, `ResponseMessage` and `NotificationMessage`: the fields of the base first.
  abbrev pub request_fields : RequestId → Bytes → Option lib.Json → List (Bytes × Field lib.Json)
  request_fields id method params =
      (bytes "jsonrpc", required (strings.to_json (bytes "2.0")))
      ∷ (bytes "id", required (id_to_json id))
      ∷ (bytes "method", required (strings.to_json method))
      ∷ (bytes "params", optional params)
      ∷ []

  unfoldable pub request_message : RequestId → Bytes → Option lib.Json → lib.Json
  unfolding id_to_json to_json_fields
  request_message id method params =
      to_json_fields lib (json_values lib) lib.null (request_fields id method params)

  abbrev pub response_fields :
      RequestId → Option lib.Json → Option lib.Json → List (Bytes × Field lib.Json)
  response_fields id result error =
      (bytes "jsonrpc", required (strings.to_json (bytes "2.0")))
      ∷ (bytes "id", required (id_to_json id))
      ∷ (bytes "result", optional result)
      ∷ (bytes "error", optional error)
      ∷ []

  unfoldable pub response_message : RequestId → Option lib.Json → Option lib.Json → lib.Json
  unfolding id_to_json to_json_fields
  response_message id result error =
      to_json_fields lib (json_values lib) lib.null (response_fields id result error)

  abbrev pub notification_fields : Bytes → Option lib.Json → List (Bytes × Field lib.Json)
  notification_fields method params =
      (bytes "jsonrpc", required (strings.to_json (bytes "2.0")))
      ∷ (bytes "method", required (strings.to_json method))
      ∷ (bytes "params", optional params)
      ∷ []

  unfoldable pub notification_message : Bytes → Option lib.Json → lib.Json
  unfolding to_json_fields
  notification_message method params =
      to_json_fields lib (json_values lib) lib.null (notification_fields method params)

  -- The message that each hands to `send_message`.
  unfoldable pub send_request : RequestId → Bytes → lib.Json → lib.Json
  unfolding request_message
  send_request id method payload = request_message id method (some payload)

  unfoldable pub send_reply : RequestId → lib.Json → lib.Json
  unfolding response_message
  send_reply reply_to result = response_message reply_to (some result) none

  unfoldable pub send_reject : RequestId → lib.Json → lib.Json
  unfolding response_message
  send_reject reply_to error = response_message reply_to none (some error)

  unfoldable pub send_notification : Bytes → lib.Json → lib.Json
  unfolding notification_message
  send_notification method params = notification_message method (some params)

  module _ (diagnostics : lib.Json → Option (Unit {0})) where
    -- A notification with a method of the list is converted, which may throw.
    unfoldable pub handle_notification : Bytes → lib.Json → Option (Unit {0})
    unfolding bytes_eq
    handle_notification method j =
        if bytes_eq method (bytes "textDocument/publishDiagnostics") then diagnostics j else some tt

    unfoldable pub classify : lib.Json → Option (Incoming lib.Json)
    unfolding id_from_json handle_notification
    classify j = elim (lib.at j (bytes "method")) [
      | some found ↦ (do
        method ← strings.get found
        elim (lib.at j (bytes "id")) [
          | some id ↦ some (incoming (some method) (some (id_from_json id)) j)
          | none ↦ (do handled ← handle_notification method j; some (incoming (some method) none j))
        ])
      | none ↦ elim (lib.at j (bytes "id")) [
        | some id ↦ some (incoming none (some (id_from_json id)) j)
        | none ↦ some (incoming none none j)
      ]
    ]
