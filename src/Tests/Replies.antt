-- ===== src/Tests/Replies.antt =====
-- The response to a completion at a concrete input.
use ycmd_cpp.Base.{◌≡◌, refl, Bool, true, false, Option, if◌then◌else◌, none, some, [], ◌∷◌, map}
use ycmd_cpp.Api.{Location, FixIt, CompletionsResponse}
use ycmd_cpp.Json.Laws.{IsCodec}
use ycmd_cpp.Handlers.Reply.{ReadsValue, responses}
use ycmd_cpp.Handlers.Reply.Fields.{IsValue}
use ycmd_cpp.Handlers.Reply.Laws.{without_menu_text, get-to_json_response}
use ycmd_cpp.Tests.Data.{codes}
use ycmd_cpp.Tests.Json.{
  Value, null_value, numeral, characters, no_fields, entry, no_elements, element, values,
  values-IsLawful, codecs, codecs-IsFaithful,
}

abbrev is_object_value : Value → Bool
is_object_value null_value = false
is_object_value (numeral n) = false
is_object_value (characters s) = false
is_object_value no_fields = true
is_object_value (entry name v rest) = true
is_object_value no_elements = false
is_object_value (element v rest) = false

abbrev read_found : (T : Type 0) → (Value → Option T) → T → Option Value → Option T
read_found T get default none = some default
read_found T get default (some x) = get x

abbrev value_of : ReadsValue values
value_of = λ T get j name default.
    if is_object_value j then read_found T get default (values.at j name) else none

values-IsValue : IsValue values is_object_value value_of
values-IsValue = record {
  is_object-object = refl;
  is_object-assign_null = λ name v. refl;
  is_object-assign = λ j name v h. refl;
  value-found = λ T get j name default x h found. rw (h, found) refl;
  value-missing = λ T get j name default h missing. rw (h, missing) refl;
}

booleans-get-to_json : (b : Bool) → codecs.booleans.get (codecs.booleans.to_json b) ≡ some b
booleans-get-to_json true = refl
booleans-get-to_json false = refl

booleans-is_null : (b : Bool) → values.is_null (codecs.booleans.to_json b) ≡ false
booleans-is_null true = refl
booleans-is_null false = refl

booleans-IsCodec : IsCodec codecs.booleans
booleans-IsCodec = record { get-to_json = booleans-get-to_json; is_null-to_json = booleans-is_null }

abbrev a_location : Location
a_location = record { line_num = 1; column_number = 2; filepath = codes "f" }

abbrev a_repair : FixIt
a_repair = record {
  text = codes "t";
  location = a_location;
  resolve = some true;
  kind = codes "k";
  chunks =
      record {
        replacement_text = codes "r";
        range = record { start = a_location; end = a_location };
      }
      ∷ [];
}

-- A candidate with a text for the menu, and an error.
abbrev a_response : CompletionsResponse
a_response = record {
  completions =
      record {
        insertion_text = codes "i";
        menu_text = some (codes "m");
        extra_menu_info = none;
        detailed_info = some (codes "d");
        kind = none;
        extra_data = none;
        doc_string = none;
        fixits = some (a_repair ∷ []);
      }
      ∷ [];
  completion_start_column = 3;
  errors = record { exception = codes "e"; message = codes "m"; traceback = [] } ∷ [];
}

get-to_json_response_example :
    (responses values value_of 9 codecs).get
      ((responses values value_of 9 codecs).to_json a_response)
    ≡ some (record a_response { completions = map without_menu_text a_response.completions })
get-to_json_response_example =
    get-to_json_response values is_object_value value_of 9 codecs values-IsLawful values-IsValue
      codecs-IsFaithful booleans-IsCodec a_response
