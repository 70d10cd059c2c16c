-- ===== src/Handlers/Reply/Laws.antt =====
-- What the client reads from the JSON of a response.
use ycmd_cpp.Base.{ℕ, ◌≡◌, refl, Bool, none, some, [], map, bytes_eq}
use ycmd_cpp.Json.{JsonLibrary, IsLawful}
use ycmd_cpp.Json.Laws.{IsCodec}
use ycmd_cpp.Api.{Location, Range, Chunk, FixIt, Candidate, Error, CompletionsResponse}
use ycmd_cpp.Clangd.Completion.{bytes}
use ycmd_cpp.Clangd.Params.{Codecs}
use ycmd_cpp.Clangd.Params.Laws.{IsFaithful}
use ycmd_cpp.Handlers.Reply.{
  ReadsValue, vector, unset_location, unset_range, locations, ranges, chunks, fixits, candidates,
  errors, responses,
}
use ycmd_cpp.Handlers.Reply.Fields.{
  IsValue, value-struct, optional_value-struct, string_read, number_read, vector_read,
  vector-IsCodec,
}

-- A candidate as it is without the text of the menu.
abbrev pub without_menu_text : Candidate → Candidate
without_menu_text c = record c { menu_text = none }

module _ (lib : JsonLibrary) (is_object : lib.Json → Bool) (value : ReadsValue lib) (unset : ℕ)
    (codecs : Codecs lib) (law : IsLawful lib) (objects : IsValue lib is_object value)
    (faithful : IsFaithful codecs) (booleans-IsCodec : IsCodec codecs.booleans) where
  location_read :
      (l : Location)
      → (locations lib value unset codecs).get ((locations lib value unset codecs).to_json l)
        ≡ some l
  unfolding locations bytes_eq
  location_read l =
      rw
        (
          number_read lib is_object value unset codecs law objects faithful _ _ _ (bytes "line_num")
              l.line_num refl,
          number_read lib is_object value unset codecs law objects faithful _ _ _
              (bytes "column_number") l.column_number refl,
          string_read lib is_object value unset codecs law objects faithful _ _ _ (bytes "filepath")
              l.filepath refl,
        )
        refl

  range_read :
      (r : Range)
      → (ranges lib value unset codecs).get ((ranges lib value unset codecs).to_json r) ≡ some r
  unfolding ranges bytes_eq
  range_read r =
      let get = (locations lib value unset codecs).get in
      let default = unset_location lib value unset codecs in
      rw
        (
          value-struct lib is_object value unset codecs law objects faithful get default _ _ _
              (bytes "start") _ r.start refl (location_read r.start),
          value-struct lib is_object value unset codecs law objects faithful get default _ _ _
              (bytes "end") _ r.end refl (location_read r.end),
        )
        refl

  chunk_read :
      (c : Chunk)
      → (chunks lib value unset codecs).get ((chunks lib value unset codecs).to_json c) ≡ some c
  unfolding chunks bytes_eq
  chunk_read c =
      rw
        (
          string_read lib is_object value unset codecs law objects faithful _ _ _
              (bytes "replacement_text") c.replacement_text refl,
          value-struct lib is_object value unset codecs law objects faithful
              (ranges lib value unset codecs).get (unset_range lib value unset codecs) _ _ _
              (bytes "range") _ c.range refl (range_read c.range),
        )
        refl

  fixit_read :
      (f : FixIt)
      → (fixits lib value unset codecs).get ((fixits lib value unset codecs).to_json f) ≡ some f
  unfolding fixits bytes_eq
  fixit_read f =
      let parts =
        vector-IsCodec lib is_object value unset codecs law objects faithful
          (chunks lib value unset codecs) chunk_read in
      rw
        (
          string_read lib is_object value unset codecs law objects faithful _ _ _ (bytes "text")
              f.text refl,
          value-struct lib is_object value unset codecs law objects faithful
              (locations lib value unset codecs).get (unset_location lib value unset codecs) _ _ _
              (bytes "location") _ f.location refl (location_read f.location),
          optional_value-struct lib is_object value unset codecs law objects faithful
              codecs.booleans booleans-IsCodec _ _ _ (bytes "resolve") f.resolve refl,
          string_read lib is_object value unset codecs law objects faithful _ _ _ (bytes "kind")
              f.kind refl,
          value-struct lib is_object value unset codecs law objects faithful
              (vector lib value unset codecs (chunks lib value unset codecs)).get [] _ _ _
              (bytes "chunks") _ f.chunks refl (parts.get-to_json f.chunks),
        )
        refl

  candidate_read :
      (c : Candidate)
      → (candidates lib value unset codecs).get ((candidates lib value unset codecs).to_json c)
        ≡ some (without_menu_text c)
  unfolding candidates bytes_eq
  candidate_read c =
      let strings = faithful.typed.strings-IsCodec in
      let repairs =
        vector-IsCodec lib is_object value unset codecs law objects faithful
          (fixits lib value unset codecs) fixit_read in
      rw
        (
          string_read lib is_object value unset codecs law objects faithful _ _ _
              (bytes "insertion_text") c.insertion_text refl,
          optional_value-struct lib is_object value unset codecs law objects faithful codecs.strings
              strings _ _ _ (bytes "extra_menu_info") c.extra_menu_info refl,
          optional_value-struct lib is_object value unset codecs law objects faithful codecs.strings
              strings _ _ _ (bytes "detailed_info") c.detailed_info refl,
          optional_value-struct lib is_object value unset codecs law objects faithful codecs.strings
              strings _ _ _ (bytes "kind") c.kind refl,
          optional_value-struct lib is_object value unset codecs law objects faithful codecs.strings
              strings _ _ _ (bytes "extra_data") c.extra_data refl,
          optional_value-struct lib is_object value unset codecs law objects faithful codecs.strings
              strings _ _ _ (bytes "doc_string") c.doc_string refl,
          optional_value-struct lib is_object value unset codecs law objects faithful
              (vector lib value unset codecs (fixits lib value unset codecs)) repairs _ _ _
              (bytes "fixits") c.fixits refl,
        )
        refl

  error_read :
      (e : Error)
      → (errors lib value unset codecs).get ((errors lib value unset codecs).to_json e) ≡ some e
  unfolding errors bytes_eq
  error_read e =
      rw
        (
          string_read lib is_object value unset codecs law objects faithful _ _ _
              (bytes "exception") e.exception refl,
          string_read lib is_object value unset codecs law objects faithful _ _ _ (bytes "message")
              e.message refl,
          string_read lib is_object value unset codecs law objects faithful _ _ _
              (bytes "traceback") e.traceback refl,
        )
        refl

  -- The response to a completion is read back from its JSON as it was, but for the text of the menu,
  -- which no candidate has any more; for conversions of the library that read what they write.
  pub get-to_json_response :
      (r : CompletionsResponse)
      → (responses lib value unset codecs).get ((responses lib value unset codecs).to_json r)
        ≡ some (record r { completions = map without_menu_text r.completions })
  unfolding responses bytes_eq
  get-to_json_response r =
      let failures =
        vector-IsCodec lib is_object value unset codecs law objects faithful
          (errors lib value unset codecs) error_read in
      rw
        (
          value-struct lib is_object value unset codecs law objects faithful
              (vector lib value unset codecs (candidates lib value unset codecs)).get [] _ _ _
              (bytes "completions") _ (map without_menu_text r.completions) refl
              (vector_read lib is_object value unset codecs law objects faithful
                (candidates lib value unset codecs) without_menu_text candidate_read r.completions),
          number_read lib is_object value unset codecs law objects faithful _ _ _
              (bytes "completion_start_column") r.completion_start_column refl,
          value-struct lib is_object value unset codecs law objects faithful
              (vector lib value unset codecs (errors lib value unset codecs)).get [] _ _ _
              (bytes "errors") _ r.errors refl (failures.get-to_json r.errors),
        )
        refl
