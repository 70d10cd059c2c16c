-- ===== src/Handlers/Reply.antt =====
-- The response to a completion in JSON: the structs of src/api.hpp as their macros write and read
-- them. Numbers, strings, Booleans and vectors are converted by the library. `unset` is what a
-- number holds that nothing initialises.
pub mod Fields
pub mod Laws
use ycmd_cpp.Base.{ℕ, Bool, Option, none, some, List, [], ◌∷◌, ◌>>=◌, map, Bytes}
use ycmd_cpp.Json.{
  JsonLibrary, Codec, Field, optional, required, optional_from_json, to_json_fields,
}
use ycmd_cpp.Api.{Location, Range, Chunk, FixIt, Candidate, Error, CompletionsResponse}
use ycmd_cpp.Clangd.Completion.{bytes}
use ycmd_cpp.Clangd.Params.{Codecs, struct, string_field, number_field}

-- The elements of a vector, each as it is read.
unfoldable pub read_all : {A B : Type 0} → (A → Option B) → List A → Option (List B)
read_all get [] = some []
read_all get (a ∷ rest) = do b ← get a; bs ← read_all get rest; some (b ∷ bs)

-- `j.value( name, default )`, with how a value is read: a function of the library, which throws if `j`
-- is no object.
abbrev pub ReadsValue : JsonLibrary → Type 1
ReadsValue lib = (T : Type 0) → (lib.Json → Option T) → lib.Json → Bytes → T → Option T

module _ (lib : JsonLibrary) (value : ReadsValue lib) (unset : ℕ) (codecs : Codecs lib) where
  abbrev pub vector : {T : Type 0} → Codec lib T → Codec lib (List T)
  vector codec = record {
    to_json = λ vs. codecs.vectors.to_json (map codec.to_json vs);
    get = λ j. codecs.vectors.get j >>= read_all codec.get;
  }

  abbrev pub optional_value : {T : Type 0} → Codec lib T → lib.Json → Bytes → Option (Option T)
  optional_value codec j name = value _ (optional_from_json lib codec) j name none

  abbrev pub optional_field : {T : Type 0} → Codec lib T → Bytes → Option T → Bytes × Field lib.Json
  optional_field codec name v =
      (name, optional (elim v [ none ↦ none | some w ↦ some (codec.to_json w) ]))

  abbrev pub field : {T : Type 0} → Codec lib T → Bytes → T → Bytes × Field lib.Json
  field codec name v = (name, required (codec.to_json v))

  abbrev pub number : lib.Json → Bytes → Option ℕ
  number j name = value _ codecs.numbers.get j name unset

  abbrev pub string : lib.Json → Bytes → Option Bytes
  string j name = value _ codecs.strings.get j name []

  abbrev pub unset_location : Location
  unset_location = record { line_num = unset; column_number = unset; filepath = [] }

  unfoldable pub locations : Codec lib Location
  unfolding to_json_fields
  locations = record {
    to_json = λ l. struct lib codecs (
        number_field lib codecs (bytes "line_num") l.line_num
        ∷ number_field lib codecs (bytes "column_number") l.column_number
        ∷ string_field lib codecs (bytes "filepath") l.filepath
        ∷ []);
    get = λ j. do
      line_num ← number j (bytes "line_num")
      column_number ← number j (bytes "column_number")
      filepath ← string j (bytes "filepath")
      some (record { line_num = line_num; column_number = column_number; filepath = filepath });
  }

  abbrev pub unset_range : Range
  unset_range = record { start = unset_location; end = unset_location }

  unfoldable pub ranges : Codec lib Range
  unfolding to_json_fields locations
  ranges = record {
    to_json = λ r.
        struct lib codecs
          (field locations (bytes "start") r.start ∷ field locations (bytes "end") r.end ∷ []);
    get = λ j. do
      start ← value _ locations.get j (bytes "start") unset_location
      end ← value _ locations.get j (bytes "end") unset_location
      some (record { start = start; end = end });
  }

  unfoldable pub chunks : Codec lib Chunk
  unfolding to_json_fields ranges
  chunks = record {
    to_json = λ c. struct lib codecs (
        string_field lib codecs (bytes "replacement_text") c.replacement_text
        ∷ field ranges (bytes "range") c.range
        ∷ []);
    get = λ j. do
      replacement_text ← string j (bytes "replacement_text")
      range ← value _ ranges.get j (bytes "range") unset_range
      some (record { replacement_text = replacement_text; range = range });
  }

  unfoldable pub fixits : Codec lib FixIt
  unfolding to_json_fields read_all locations chunks optional_from_json
  fixits = record {
    to_json = λ f. struct lib codecs (
        string_field lib codecs (bytes "text") f.text
        ∷ field locations (bytes "location") f.location
        ∷ optional_field codecs.booleans (bytes "resolve") f.resolve
        ∷ string_field lib codecs (bytes "kind") f.kind
        ∷ field (vector chunks) (bytes "chunks") f.chunks
        ∷ []);
    get = λ j. do
      text ← string j (bytes "text")
      location ← value _ locations.get j (bytes "location") unset_location
      resolve ← optional_value codecs.booleans j (bytes "resolve")
      kind ← string j (bytes "kind")
      parts ← value _ (vector chunks).get j (bytes "chunks") []
      some (record {
        text = text;
        location = location;
        resolve = resolve;
        kind = kind;
        chunks = parts;
      });
  }

  -- The list of fields leaves out `menu_text`.
  unfoldable pub candidates : Codec lib Candidate
  unfolding to_json_fields read_all fixits optional_from_json
  candidates = record {
    to_json = λ c. struct lib codecs (
        string_field lib codecs (bytes "insertion_text") c.insertion_text
        ∷ optional_field codecs.strings (bytes "extra_menu_info") c.extra_menu_info
        ∷ optional_field codecs.strings (bytes "detailed_info") c.detailed_info
        ∷ optional_field codecs.strings (bytes "kind") c.kind
        ∷ optional_field codecs.strings (bytes "extra_data") c.extra_data
        ∷ optional_field codecs.strings (bytes "doc_string") c.doc_string
        ∷ optional_field (vector fixits) (bytes "fixits") c.fixits
        ∷ []);
    get = λ j. do
      insertion_text ← string j (bytes "insertion_text")
      extra_menu_info ← optional_value codecs.strings j (bytes "extra_menu_info")
      detailed_info ← optional_value codecs.strings j (bytes "detailed_info")
      kind ← optional_value codecs.strings j (bytes "kind")
      extra_data ← optional_value codecs.strings j (bytes "extra_data")
      doc_string ← optional_value codecs.strings j (bytes "doc_string")
      repairs ← optional_value (vector fixits) j (bytes "fixits")
      some (record {
        insertion_text = insertion_text;
        menu_text = none;
        extra_menu_info = extra_menu_info;
        detailed_info = detailed_info;
        kind = kind;
        extra_data = extra_data;
        doc_string = doc_string;
        fixits = repairs;
      });
  }

  unfoldable pub errors : Codec lib Error
  unfolding to_json_fields
  errors = record {
    to_json = λ e. struct lib codecs (
        string_field lib codecs (bytes "exception") e.exception
        ∷ string_field lib codecs (bytes "message") e.message
        ∷ string_field lib codecs (bytes "traceback") e.traceback
        ∷ []);
    get = λ j. do
      exception ← string j (bytes "exception")
      message ← string j (bytes "message")
      traceback ← string j (bytes "traceback")
      some (record { exception = exception; message = message; traceback = traceback });
  }

  unfoldable pub responses : Codec lib CompletionsResponse
  unfolding to_json_fields read_all candidates errors
  responses = record {
    to_json = λ r. struct lib codecs (
        field (vector candidates) (bytes "completions") r.completions
        ∷ number_field lib codecs (bytes "completion_start_column") r.completion_start_column
        ∷ field (vector errors) (bytes "errors") r.errors
        ∷ []);
    get = λ j. do
      completions ← value _ (vector candidates).get j (bytes "completions") []
      start_column ← number j (bytes "completion_start_column")
      failures ← value _ (vector errors).get j (bytes "errors") []
      some (record {
        completions = completions;
        completion_start_column = start_column;
        errors = failures;
      });
  }
