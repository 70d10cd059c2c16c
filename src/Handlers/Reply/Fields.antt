-- ===== src/Handlers/Reply/Fields.antt =====
-- Fields of structs and vectors that are written, and read with their defaults.
use ycmd_cpp.Base.{
  ℕ, ◌≡◌, refl, ap, ◌∙◌, Bool, true, Option, none, some, List, [], ◌∷◌, map, Bytes, Bool-cases, inl,
  inr,
}
use ycmd_cpp.Json.{
  JsonLibrary, IsLawful, Codec, Field, required, optional, nullable, to_json_optional,
  to_json_fields, optional_from_json,
}
use ycmd_cpp.Json.Laws.{IsCodec, found_in, written}
use ycmd_cpp.Clangd.Messages.{json_values}
use ycmd_cpp.Clangd.Params.{Codecs, struct}
use ycmd_cpp.Clangd.Params.Laws.{IsFaithful, at-struct}
use ycmd_cpp.Handlers.Reply.{
  read_all, ReadsValue, vector, optional_value, optional_field, number, string,
}

-- What the library's documentation says of `value`: it reads what stands under the name, and gives
-- the default if an object has nothing there. An assignment to a field of null or of an object leaves
-- an object.
pub record IsValue (lib : JsonLibrary) (is_object : lib.Json → Bool) (value : ReadsValue lib)
    : Type 1 where
  pub is_object-object : is_object lib.object ≡ true
  pub is_object-assign_null :
      (name : Bytes) (v : lib.Json) → is_object (lib.assign lib.null name v) ≡ true
  pub is_object-assign :
      (j : lib.Json) (name : Bytes) (v : lib.Json)
      → is_object j ≡ true
      → is_object (lib.assign j name v) ≡ true
  pub value-found :
      (T : Type 0) (get : lib.Json → Option T) (j : lib.Json) (name : Bytes) (default : T)
      (x : lib.Json)
      → is_object j ≡ true
      → lib.at j name ≡ some x
      → value T get j name default ≡ get x
  pub value-missing :
      (T : Type 0) (get : lib.Json → Option T) (j : lib.Json) (name : Bytes) (default : T)
      → is_object j ≡ true
      → lib.at j name ≡ none
      → value T get j name default ≡ some default

-- Elements that are written and read.
read_all-map :
    {A B : Type 0} (to : A → B) (get : B → Option A) (f : A → A)
    → ((a : A) → get (to a) ≡ some (f a))
    → (as_written : List A) → read_all get (map to as_written) ≡ some (map f as_written)
unfolding read_all
read_all-map to get f good [] = refl
read_all-map to get f good (a ∷ rest) = rw (good a, read_all-map to get f good rest) refl

map_same : {A : Type 0} (xs : List A) → map (λ x. x) xs ≡ xs
map_same [] = refl
map_same (x ∷ xs) = ap (◌∷◌ x) (map_same xs)

module _ (lib : JsonLibrary) (is_object : lib.Json → Bool) (value : ReadsValue lib) (unset : ℕ)
    (codecs : Codecs lib) (law : IsLawful lib) (objects : IsValue lib is_object value)
    (faithful : IsFaithful codecs) where
  is_object-to_json_optional :
      (j : lib.Json) (name : Bytes) (v : Field lib.Json)
      → is_object j ≡ true
      → is_object (to_json_optional lib (json_values lib) j name v) ≡ true
  unfolding to_json_optional
  is_object-to_json_optional j name (required v) h = objects.is_object-assign j name v h
  is_object-to_json_optional j name (optional (some v)) h = objects.is_object-assign j name v h
  is_object-to_json_optional j name (optional none) h = elim (Bool-cases (lib.is_null j)) [
    | inl e ↦ rw e objects.is_object-object
    | inr e ↦ rw e h
  ]
  is_object-to_json_optional j name (nullable v) h = objects.is_object-assign j name _ h

  is_object-to_json_fields :
      (j : lib.Json) (fields : List (Bytes × Field lib.Json))
      → is_object j ≡ true
      → is_object (to_json_fields lib (json_values lib) j fields) ≡ true
  unfolding to_json_fields
  is_object-to_json_fields j [] h = h
  is_object-to_json_fields j ((name, v) ∷ fields) h =
      is_object-to_json_fields (to_json_optional lib (json_values lib) j name v) fields
        (is_object-to_json_optional j name v h)

  is_object-struct :
      (name : Bytes) (v : lib.Json) (fields : List (Bytes × Field lib.Json))
      → is_object (struct lib codecs ((name, required v) ∷ fields)) ≡ true
  unfolding to_json_fields to_json_optional
  is_object-struct name v fields =
      is_object-to_json_fields (lib.assign lib.null name v) fields
        (objects.is_object-assign_null name v)

  -- A field of a struct is read by its name.
  pub value-struct :
      {T : Type 0} (get : lib.Json → Option T) (default : T) (first : Bytes) (w : lib.Json)
      (fields : List (Bytes × Field lib.Json)) (name : Bytes) (x : lib.Json) (v : T)
      → found_in lib (json_values lib) law name ((first, required w) ∷ fields) none ≡ some x
      → get x ≡ some v
      → value _ get (struct lib codecs ((first, required w) ∷ fields)) name default ≡ some v
  value-struct get default first w fields name x v e good =
      let all = (first, required w) ∷ fields in
      objects.value-found _ get (struct lib codecs all) name default x
        (is_object-struct first w fields) (at-struct lib codecs law faithful name all (some x) e)
      ∙ good

  optional_from_json-to_json :
      {T : Type 0} (codec : Codec lib T)
      → IsCodec codec
      → (v : T) → optional_from_json lib codec (codec.to_json v) ≡ some (some v)
  unfolding optional_from_json
  optional_from_json-to_json codec good v =
      rw (optional_from_json, good.is_null-to_json v, good.get-to_json v) refl

  -- An optional field, set or not.
  pub optional_value-struct :
      {T : Type 0} (codec : Codec lib T)
      → IsCodec codec
      → (first : Bytes) (w : lib.Json) (fields : List (Bytes × Field lib.Json)) (name : Bytes)
        (v : Option T)
      → found_in lib (json_values lib) law name ((first, required w) ∷ fields) none
        ≡ written lib
            (json_values lib)
            law
            (optional_field lib value unset codecs codec name v).1
            none
      → optional_value lib value unset codecs codec
          (struct lib codecs ((first, required w) ∷ fields))
          name
        ≡ some v
  optional_value-struct codec good first w fields name none e =
      let all = (first, required w) ∷ fields in
      objects.value-missing _ (optional_from_json lib codec) (struct lib codecs all) name none
        (is_object-struct first w fields) (at-struct lib codecs law faithful name all none e)
  optional_value-struct codec good first w fields name (some v) e =
      value-struct (optional_from_json lib codec) none first w fields name (codec.to_json v)
        (some v) e (optional_from_json-to_json codec good v)

  pub string_read :
      (first : Bytes) (w : lib.Json) (fields : List (Bytes × Field lib.Json)) (name s : Bytes)
      → found_in lib (json_values lib) law name ((first, required w) ∷ fields) none
        ≡ some (codecs.strings.to_json s)
      → string lib value unset codecs (struct lib codecs ((first, required w) ∷ fields)) name
        ≡ some s
  string_read first w fields name s e =
      value-struct codecs.strings.get [] _ _ _ name (codecs.strings.to_json s) s e
        (faithful.typed.strings-IsCodec.get-to_json s)

  pub number_read :
      (first : Bytes) (w : lib.Json) (fields : List (Bytes × Field lib.Json)) (name : Bytes) (n : ℕ)
      → found_in lib (json_values lib) law name ((first, required w) ∷ fields) none
        ≡ some (codecs.numbers.to_json n)
      → number lib value unset codecs (struct lib codecs ((first, required w) ∷ fields)) name
        ≡ some n
  number_read first w fields name n e =
      value-struct codecs.numbers.get unset _ _ _ name (codecs.numbers.to_json n) n e
        (faithful.typed.numbers-IsCodec.get-to_json n)

  -- A vector whose elements are read with a change.
  pub vector_read :
      {T : Type 0} (codec : Codec lib T) (f : T → T)
      → ((v : T) → codec.get (codec.to_json v) ≡ some (f v))
      → (vs : List T)
      → (vector lib value unset codecs codec).get ((vector lib value unset codecs codec).to_json vs)
        ≡ some (map f vs)
  vector_read codec f good vs =
      rw (faithful.vectors-IsCodec.get-to_json (map codec.to_json vs))
        (read_all-map codec.to_json codec.get f good vs)

  pub vector-IsCodec :
      {T : Type 0} (codec : Codec lib T)
      → ((v : T) → codec.get (codec.to_json v) ≡ some v)
      → IsCodec (vector lib value unset codecs codec)
  vector-IsCodec codec good = record {
    get-to_json = λ vs. vector_read codec (λ v. v) good vs ∙ ap some (map_same vs);
    is_null-to_json = λ vs. faithful.vectors-IsCodec.is_null-to_json (map codec.to_json vs);
  }
