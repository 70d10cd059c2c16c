-- ===== src/Tests/Json.antt =====
-- Fields in JSON at a concrete library.
use ycmd_cpp.Base.{
  ℕ, ◌≡◌, refl, Bool, true, false, Option, none, some, List, [], ◌∷◌, if◌then◌else◌, Bytes,
  bytes_eq, ap, arith, ◌>>=◌, ◌==◌,
}
use ycmd_cpp.Json.{
  JsonLibrary, IsLawful, Codec, Field, required, optional, nullable, to_json_fields,
  from_json_fields,
}
use ycmd_cpp.Json.Laws.{IsCodec, IsDistinct, kinds_of, from_json_fields-to_json_fields}
use ycmd_cpp.Lsp.RoundTrip.{send_messages}
use ycmd_cpp.Clangd.Pending.{number, incoming, Pending, find_pending}
use ycmd_cpp.Clangd.Pending.Laws.{waiting}
use ycmd_cpp.Clangd.Pump.{message_pump}
use ycmd_cpp.Clangd.Messages.{
  send_request, send_reply, send_reject, send_notification, handle_notification, classify,
}
use ycmd_cpp.Clangd.Messages.Laws.{IsTyped, classify_lem}
use ycmd_cpp.Clangd.Messages.Replies.{parse_message, message_pump-send_reply}
use ycmd_cpp.Clangd.Completion.{bytes}
use ycmd_cpp.Clangd.Sync.{did_change}
use ycmd_cpp.Clangd.Params.{Codecs, did_change_params, notification_json}
use ycmd_cpp.Clangd.Params.Laws.{IsFaithful, read_notification, read_notification-notification_json}
use ycmd_cpp.Tests.Data.{codes}

-- Null, numbers, strings, arrays, and objects, the newest field first.
pub data Value : Type 0 where
  null_value : Value
  numeral : ℕ → Value
  characters : Bytes → Value
  no_fields : Value
  entry : Bytes → Value → Value → Value
  no_elements : Value
  element : Value → Value → Value

abbrev is_null_value : Value → Bool
is_null_value null_value = true
is_null_value (numeral n) = false
is_null_value (characters s) = false
is_null_value no_fields = false
is_null_value (entry name v rest) = false
is_null_value no_elements = false
is_null_value (element v rest) = false

abbrev value_at : Value → Bytes → Option Value
value_at null_value name = none
value_at (numeral n) name = none
value_at (characters s) name = none
value_at no_fields name = none
value_at no_elements name = none
value_at (element v rest) name = none
value_at (entry other v rest) name = if bytes_eq other name then some v else value_at rest name

abbrev pub values : JsonLibrary
values = record {
  Json = Value;
  null = null_value;
  object = no_fields;
  is_null = is_null_value;
  assign = λ j name v. entry name v j;
  at = value_at;
}

values-at-is_null : (j : Value) (name : Bytes) → is_null_value j ≡ true → value_at j name ≡ none
values-at-is_null null_value name h = refl
values-at-is_null (numeral n) name h = refl
values-at-is_null (characters s) name h = refl
values-at-is_null no_fields name h = refl
values-at-is_null no_elements name h = refl
values-at-is_null (element v rest) name h = refl
values-at-is_null (entry other v rest) name h = ground (arith, h)

pub values-IsLawful : IsLawful values
values-IsLawful = record {
  is_null-null = refl;
  is_null-object = refl;
  is_null-assign = λ j name v. refl;
  at-is_null = values-at-is_null;
  at-object = λ name. refl;
  at-assign = λ j name other v. refl;
}

abbrev get_numeral : Value → Option ℕ
get_numeral null_value = none
get_numeral (numeral n) = some n
get_numeral (characters s) = none
get_numeral no_fields = none
get_numeral (entry name v rest) = none
get_numeral no_elements = none
get_numeral (element v rest) = none

abbrev numerals : Codec values ℕ
numerals = record { to_json = numeral; get = get_numeral }

numerals-IsCodec : IsCodec numerals
numerals-IsCodec = record { get-to_json = λ v. refl; is_null-to_json = λ v. refl }

-- A value that is not set, a null, and one that is there.
abbrev fields : List (Bytes × Field ℕ)
fields = (codes "n", nullable none) ∷ (codes "r", required 7) ∷ []

distinct : IsDistinct ((codes "o", optional none) ∷ fields)
unfolding bytes_eq
distinct = ((refl, (refl, tt)), (refl, (refl, tt)), ((refl, tt), (refl, tt), (tt, tt, tt)))

from_json_fields-to_json_fields_example :
    (from_json_fields values numerals
        (to_json_fields values numerals null_value ((codes "o", optional none) ∷ fields))
        (kinds_of ((codes "o", optional none) ∷ fields))
      ≡ some ((codes "o", optional none) ∷ fields))
    × (is_null_value
          (to_json_fields values numerals null_value ((codes "o", optional none) ∷ fields))
        ≡ false)
from_json_fields-to_json_fields_example =
    from_json_fields-to_json_fields values numerals values-IsLawful numerals-IsCodec (codes "o")
      (optional none) fields distinct

abbrev get_characters : Value → Option Bytes
get_characters null_value = none
get_characters (numeral n) = none
get_characters (characters s) = some s
get_characters no_fields = none
get_characters (entry name v rest) = none
get_characters no_elements = none
get_characters (element v rest) = none

abbrev pub strings : Codec values Bytes
strings = record { to_json = characters; get = get_characters }

strings-IsTyped : IsTyped strings numerals
strings-IsTyped = record {
  strings-IsCodec = record { get-to_json = λ v. refl; is_null-to_json = λ v. refl };
  numbers-IsCodec = numerals-IsCodec;
  string_of_number = λ n. refl;
  number_of_string = λ s. refl;
}

abbrev no_diagnostics : Value → Option (Unit {0})
no_diagnostics j = none

classify_example :
    let of = classify values strings numerals no_diagnostics in
    let request = send_request values strings numerals (number 1) (codes "a") (numeral 2) in
    let reply = send_reply values strings numerals (number 1) (numeral 2) in
    let reject = send_reject values strings numerals (number 1) (numeral 2) in
    let notification = send_notification values strings numerals (codes "a") (numeral 2) in
    (of request ≡ some (incoming (some (codes "a")) (some (number 1)) request))
    × (of reply ≡ some (incoming none (some (number 1)) reply))
    × (of reject ≡ some (incoming none (some (number 1)) reject))
    × (of notification ≡ (do
      handled ← handle_notification values strings numerals no_diagnostics (codes "a") notification
      some (incoming (some (codes "a")) none notification)))
classify_example =
    classify_lem values strings numerals values-IsLawful strings-IsTyped no_diagnostics (number 1)
      (codes "a") (numeral 2)

-- A request that waits, its reply, and a library that knows the text of this reply.
abbrev one_pending : Pending ℕ
one_pending = record { next_id = 2; pending_requests = record { id = number 1; handler = 10 } ∷ [] }

abbrev a_reply : Value
a_reply = send_reply values strings numerals (number 1) (numeral 2)

abbrev dump_reply : Value → Bytes
dump_reply j = codes "r"

abbrev parse_reply : Bytes → Option Value
parse_reply s = some a_reply

waiting-one_pending : waiting one_pending 1 ≡ some 10
unfolding find_pending
waiting-one_pending = refl

message_pump-send_reply_example :
    let done =
      message_pump
        (parse_message values strings numerals no_diagnostics dump_reply parse_reply)
        2
        (send_messages (codes "r" ∷ []))
        one_pending in
    (done.1 ≡ 10 ∷ [])
    × ((m : ℕ) → waiting done.0 m ≡ (if 1 == m then none else waiting one_pending m))
message_pump-send_reply_example =
    message_pump-send_reply values strings numerals no_diagnostics dump_reply parse_reply
      values-IsLawful strings-IsTyped one_pending 1 10 (numeral 2)
      (1, refl, omega arith, omega arith, omega arith) waiting-one_pending refl
      (omega arith, omega arith)

-- Booleans as numbers, and arrays.
abbrev from_bool : Bool → Value
from_bool true = numeral 1
from_bool false = numeral 0

abbrev to_elements : List Value → Value
to_elements [] = no_elements
to_elements (v ∷ vs) = element v (to_elements vs)

abbrev map_option : {A B : Type 0} → (A → B) → Option A → Option B
map_option f none = none
map_option f (some a) = some (f a)

abbrev get_elements : Value → Option (List Value)
get_elements null_value = none
get_elements (numeral n) = none
get_elements (characters s) = none
get_elements no_fields = none
get_elements (entry name v rest) = none
get_elements no_elements = some []
get_elements (element v rest) = map_option (λ vs. v ∷ vs) (get_elements rest)

get_elements-to_elements : (vs : List Value) → get_elements (to_elements vs) ≡ some vs
get_elements-to_elements [] = refl
get_elements-to_elements (v ∷ vs) = ap (map_option (λ ws. v ∷ ws)) (get_elements-to_elements vs)

to_elements-is_null : (vs : List Value) → is_null_value (to_elements vs) ≡ false
to_elements-is_null [] = refl
to_elements-is_null (v ∷ vs) = refl

abbrev pub codecs : Codecs values
codecs = record {
  strings = strings;
  numbers = numerals;
  booleans = record { to_json = from_bool; get = λ j. map_option (λ n. n == 1) (get_numeral j) };
  vectors = record { to_json = to_elements; get = get_elements };
}

pub codecs-IsFaithful : IsFaithful codecs
codecs-IsFaithful = record {
  typed = strings-IsTyped;
  vectors-IsCodec = record {
    get-to_json = get_elements-to_elements;
    is_null-to_json = to_elements-is_null;
  };
}

abbrev a_change : Value
a_change =
    send_notification values strings numerals (bytes "textDocument/didChange")
      (did_change_params values codecs (codes "f") 2 (codes "t"))

a_change_json :
    notification_json values codecs (did_change (codes "f") 2 (codes "t")) ≡ some a_change
unfolding notification_json
a_change_json = refl

read_notification-notification_json_example :
    read_notification values codecs a_change ≡ some (did_change (codes "f") 2 (codes "t"))
read_notification-notification_json_example =
    read_notification-notification_json values codecs values-IsLawful codecs-IsFaithful
      (did_change (codes "f") 2 (codes "t")) a_change a_change_json
