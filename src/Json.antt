-- ===== src/Json.antt =====
-- Fields of structs in JSON: `to_json_optional` and `from_json_optional` of
-- src/json/json_serialisation.hpp, and the lists of them that its macros make. JSON values are those
-- of a library: a parameter with what the code uses of it. A field is converted by a codec, whose
-- failure is an exception.
pub mod Laws
use ycmd_cpp.Base.{
  ◌≡◌, Bool, true, false, Option, none, some, List, [], ◌∷◌, ◌>>=◌, if◌then◌else◌, Bytes, bytes_eq,
}

-- Null, an object without fields, `j[ name ] = v`, and `contains` with `at`.
pub record JsonLibrary : Type 1 where
  pub Json : Type 0
  pub null : Json
  pub object : Json
  pub is_null : Json → Bool
  pub assign : Json → Bytes → Json → Json
  pub at : Json → Bytes → Option Json

-- What the library's documentation says of them: an assignment to a field makes an object of null.
pub record IsLawful (lib : JsonLibrary) : Type 0 where
  pub is_null-null : lib.is_null lib.null ≡ true
  pub is_null-object : lib.is_null lib.object ≡ false
  pub is_null-assign :
      (j : lib.Json) (name : Bytes) (v : lib.Json) → lib.is_null (lib.assign j name v) ≡ false
  pub at-is_null : (j : lib.Json) (name : Bytes) → lib.is_null j ≡ true → lib.at j name ≡ none
  pub at-object : (name : Bytes) → lib.at lib.object name ≡ none
  pub at-assign :
      (j : lib.Json) (name other : Bytes) (v : lib.Json)
      → lib.at (lib.assign j name v) other
        ≡ (if bytes_eq name other then some v else lib.at j other)

pub record Codec (lib : JsonLibrary) (T : Type 0) : Type 0 where
  pub to_json : T → lib.Json
  pub get : lib.Json → Option T

-- A field of a struct: of a type that must be there, a `std::optional` or a `Nullable`.
pub data Field (T : Type 0) : Type 0 where
  required : T → Field T
  optional : Option T → Field T
  nullable : Option T → Field T

pub data Kind : Type 0 where
  required_kind optional_kind nullable_kind : Kind

module _ (lib : JsonLibrary) {T : Type 0} (codec : Codec lib T) where
  -- `to_json` of an optional: into a new value, which is null.
  unfoldable pub optional_to_json : Option T → lib.Json
  optional_to_json none = lib.null
  optional_to_json (some v) = codec.to_json v

  -- An optional that is unset leaves no field, but makes an object of null.
  unfoldable pub to_json_optional : lib.Json → Bytes → Field T → lib.Json
  unfolding optional_to_json
  to_json_optional j name (required v) = lib.assign j name (codec.to_json v)
  to_json_optional j name (optional (some v)) = lib.assign j name (codec.to_json v)
  to_json_optional j name (optional none) = if lib.is_null j then lib.object else j
  to_json_optional j name (nullable v) = lib.assign j name (optional_to_json v)

  -- `from_json` of an optional, into an empty one.
  unfoldable pub optional_from_json : lib.Json → Option (Option T)
  optional_from_json j = if lib.is_null j then some none else (do v ← codec.get j; some (some v))

  -- The field that is read from what stands under its name.
  unfoldable pub from_found : Kind → Option lib.Json → Option (Field T)
  unfolding optional_from_json
  from_found required_kind none = none
  from_found required_kind (some j) = do v ← codec.get j; some (required v)
  from_found optional_kind none = some (optional none)
  from_found optional_kind (some j) = do v ← optional_from_json j; some (optional v)
  from_found nullable_kind none = some (nullable none)
  from_found nullable_kind (some j) = do v ← optional_from_json j; some (nullable v)

  unfoldable pub from_json_optional : lib.Json → Bytes → Kind → Option (Field T)
  unfolding from_found
  from_json_optional j name kind = from_found kind (lib.at j name)

  -- The macros: one call for each field, in order.
  unfoldable pub to_json_fields : lib.Json → List (Bytes × Field T) → lib.Json
  unfolding to_json_optional
  to_json_fields j [] = j
  to_json_fields j ((name, v) ∷ fields) = to_json_fields (to_json_optional j name v) fields

  unfoldable pub from_json_fields : lib.Json → List (Bytes × Kind) → Option (List (Bytes × Field T))
  unfolding from_json_optional
  from_json_fields j [] = some []
  from_json_fields j ((name, kind) ∷ kinds) = do
    v ← from_json_optional j name kind
    rest ← from_json_fields j kinds
    some ((name, v) ∷ rest)
