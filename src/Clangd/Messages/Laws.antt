-- ===== src/Clangd/Messages/Laws.antt =====
-- How the messages that are built are told apart, and what they do to the requests that wait.
use ycmd_cpp.Base.{ℕ, ◌≡◌, refl, ap, ◌∙◌, Option, none, some, List, ◌>>=◌, Bytes, bytes_eq}
use ycmd_cpp.Json.{JsonLibrary, IsLawful, Codec, Field, to_json_fields}
use ycmd_cpp.Json.Laws.{IsCodec, found_in, at-to_json_fields_found}
use ycmd_cpp.Clangd.Completion.{bytes}
use ycmd_cpp.Clangd.Pending.{RequestId, text, number, incoming}
use ycmd_cpp.Clangd.Messages.{
  json_values, variant_from_json, request_fields, response_fields, notification_fields, id_to_json,
  id_from_json, request_message, response_message, notification_message, send_request, send_reply,
  send_reject, send_notification, handle_notification, classify,
}

-- Strings and numbers are read back, and neither is read as the other.
pub record IsTyped {lib : JsonLibrary} (strings : Codec lib Bytes) (numbers : Codec lib ℕ)
    : Type 0 where
  pub strings-IsCodec : IsCodec strings
  pub numbers-IsCodec : IsCodec numbers
  pub string_of_number : (n : ℕ) → strings.get (numbers.to_json n) ≡ none
  pub number_of_string : (s : Bytes) → numbers.get (strings.to_json s) ≡ none

module _ (lib : JsonLibrary) (strings : Codec lib Bytes) (numbers : Codec lib ℕ)
    (law : IsLawful lib) (typed : IsTyped strings numbers) where
  -- An identifier is read back, whichever alternative it is.
  id_from_json-id_to_json :
      (id : RequestId) → id_from_json lib strings numbers (id_to_json lib strings numbers id) ≡ id
  unfolding id_from_json id_to_json
  id_from_json-id_to_json (text s) =
      rw
        (
          id_from_json,
          variant_from_json,
          typed.number_of_string s,
          typed.strings-IsCodec.get-to_json s,
        )
        refl
  id_from_json-id_to_json (number n) =
      rw (id_from_json, variant_from_json, typed.numbers-IsCodec.get-to_json n) refl

  -- What is found under a name in the fields that a struct writes.
  pub at-fields :
      (name : Bytes) (fields : List (Bytes × Field lib.Json)) (found : Option lib.Json)
      → found_in lib (json_values lib) law name fields none ≡ found
      → lib.at (to_json_fields lib (json_values lib) lib.null fields) name ≡ found
  at-fields name fields found e =
      at-to_json_fields_found lib (json_values lib) law lib.null name fields
      ∙ ap (found_in lib (json_values lib) law name fields)
          (law.at-is_null lib.null name law.is_null-null)
      ∙ e

  at-request_message :
      (id : RequestId) (method : Bytes) (params : Option lib.Json)
      → (let j = request_message lib strings numbers id method params in
          (lib.at j (bytes "method") ≡ some (strings.to_json method))
          × (lib.at j (bytes "id") ≡ some (id_to_json lib strings numbers id)))
  unfolding request_message bytes_eq
  at-request_message id method none =
      let fields = request_fields lib strings numbers id method none in
      (at-fields _ fields _ refl, at-fields _ fields _ refl)
  at-request_message id method (some payload) =
      let fields = request_fields lib strings numbers id method (some payload) in
      (at-fields _ fields _ refl, at-fields _ fields _ refl)

  at-response_message :
      (id : RequestId) (result error : Option lib.Json)
      → (let j = response_message lib strings numbers id result error in
          (lib.at j (bytes "method") ≡ none)
          × (lib.at j (bytes "id") ≡ some (id_to_json lib strings numbers id)))
  unfolding response_message bytes_eq
  at-response_message id none none =
      let fields = response_fields lib strings numbers id none none in
      (at-fields _ fields _ refl, at-fields _ fields _ refl)
  at-response_message id none (some e) =
      let fields = response_fields lib strings numbers id none (some e) in
      (at-fields _ fields _ refl, at-fields _ fields _ refl)
  at-response_message id (some r) none =
      let fields = response_fields lib strings numbers id (some r) none in
      (at-fields _ fields _ refl, at-fields _ fields _ refl)
  at-response_message id (some r) (some e) =
      let fields = response_fields lib strings numbers id (some r) (some e) in
      (at-fields _ fields _ refl, at-fields _ fields _ refl)

  pub at-notification_message :
      (method : Bytes) (params : lib.Json)
      → (let j = send_notification lib strings numbers method params in
          (lib.at j (bytes "method") ≡ some (strings.to_json method))
          × (lib.at j (bytes "id") ≡ none))
  unfolding notification_message send_notification bytes_eq
  at-notification_message method params =
      let fields = notification_fields lib strings numbers method (some params) in
      (at-fields _ fields _ refl, at-fields _ fields _ refl)

  module _ (diagnostics : lib.Json → Option (Unit {0})) where
    classify-response :
        (id : RequestId) (result error : Option lib.Json)
        → (let j = response_message lib strings numbers id result error in
            classify lib strings numbers diagnostics j ≡ some (incoming none (some id) j))
    unfolding classify response_message
    classify-response id result error =
        let (method, has_id) = at-response_message id result error in
        rw (classify, method, has_id, id_from_json-id_to_json id) refl

    -- What `send_request` builds is told to be a request with the method and the identifier, what
    -- `send_reply` and `send_reject` build a response with the identifier, and what
    -- `send_notification` builds a notification with the method, if it can be handled.
    pub classify_lem :
        (id : RequestId) (method : Bytes) (payload : lib.Json)
        → (let of = classify lib strings numbers diagnostics in
            let request = send_request lib strings numbers id method payload in
            let reply = send_reply lib strings numbers id payload in
            let reject = send_reject lib strings numbers id payload in
            let notification = send_notification lib strings numbers method payload in
            (of request ≡ some (incoming (some method) (some id) request))
            × (of reply ≡ some (incoming none (some id) reply))
            × (of reject ≡ some (incoming none (some id) reject))
            × (of notification ≡ (do
              handled ← handle_notification lib strings numbers diagnostics method notification
              some (incoming (some method) none notification))))
    unfolding send_request send_reply send_reject classify
    classify_lem id method payload =
        let request = at-request_message id method (some payload) in
        let notification = at-notification_message method payload in
        let name = typed.strings-IsCodec.get-to_json method in
        (
          rw (classify, request.0, name, request.1, id_from_json-id_to_json id) refl,
          classify-response id (some payload) none,
          classify-response id none (some payload),
          rw (classify, notification.0, name, notification.1) refl,
        )
