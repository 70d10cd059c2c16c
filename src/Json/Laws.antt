-- ===== src/Json/Laws.antt =====
-- `from_json_optional` against `to_json_optional`.
use ycmd_cpp.Base.{
  ◌≡◌, refl, sym, ◌∙◌, false, none, some, List, [], ◌∷◌, Bytes, bytes_eq, bytes_eq_refl,
  bytes_eq_iff, Option, ap, if◌then◌else◌, All, Bool-cases, inl, inr,
}
use ycmd_cpp.Json.{
  JsonLibrary, IsLawful, Codec, Field, required, optional, nullable, Kind, required_kind,
  optional_kind, nullable_kind, optional_to_json, to_json_optional, optional_from_json, from_found,
  from_json_optional, to_json_fields, from_json_fields,
}

abbrev pub kind_of : {T : Type 0} → Field T → Kind
kind_of (required v) = required_kind
kind_of (optional v) = optional_kind
kind_of (nullable v) = nullable_kind

abbrev pub kinds_of : {T : Type 0} → List (Bytes × Field T) → List (Bytes × Kind)
kinds_of [] = []
kinds_of ((name, v) ∷ fields) = (name, kind_of v) ∷ kinds_of fields

-- No field has the name, and no two fields have the same.
abbrev pub IsAbsent : {T : Type 0} → Bytes → List (Bytes × Field T) → Type 0
IsAbsent name [] = Unit
IsAbsent name ((other, v) ∷ fields) = (bytes_eq other name ≡ false) × IsAbsent name fields

abbrev pub IsDistinct : {T : Type 0} → List (Bytes × Field T) → Type 0
IsDistinct [] = Unit
IsDistinct ((name, v) ∷ fields) =
    IsAbsent name fields × All (λ f. bytes_eq name f.0 ≡ false) fields × IsDistinct fields

-- A codec reads what it writes, and writes no null.
pub record IsCodec {lib : JsonLibrary} {T : Type 0} (codec : Codec lib T) : Type 0 where
  pub get-to_json : (v : T) → codec.get (codec.to_json v) ≡ some v
  pub is_null-to_json : (v : T) → lib.is_null (codec.to_json v) ≡ false

module _ (lib : JsonLibrary) {T : Type 0} (codec : Codec lib T) (law : IsLawful lib) where
  -- Another field is left as it is.
  at-to_json_optional :
      (j : lib.Json) (name other : Bytes) (v : Field T)
      → bytes_eq name other ≡ false
      → lib.at (to_json_optional lib codec j name v) other ≡ lib.at j other
  unfolding to_json_optional
  at-to_json_optional j name other (required v) h =
      law.at-assign j name other (codec.to_json v) ∙ rw h refl
  at-to_json_optional j name other (optional (some v)) h =
      law.at-assign j name other (codec.to_json v) ∙ rw h refl
  at-to_json_optional j name other (optional none) h = elim (Bool-cases (lib.is_null j)) [
    | inl e ↦ rw e (law.at-object other ∙ sym (law.at-is_null j other e))
    | inr e ↦ rw e refl
  ]
  at-to_json_optional j name other (nullable v) h =
      law.at-assign j name other (optional_to_json lib codec v) ∙ rw h refl

  at-to_json_fields :
      (j : lib.Json) (name : Bytes) (fields : List (Bytes × Field T))
      → IsAbsent name fields
      → lib.at (to_json_fields lib codec j fields) name ≡ lib.at j name
  unfolding to_json_fields
  at-to_json_fields j name [] h = refl
  at-to_json_fields j name ((other, v) ∷ fields) (h, hs) =
      at-to_json_fields (to_json_optional lib codec j other v) name fields hs
      ∙ at-to_json_optional j other name v h

  assigned :
      (j : lib.Json) (name : Bytes) (v : lib.Json) → lib.at (lib.assign j name v) name ≡ some v
  assigned j name v = law.at-assign j name name v ∙ rw (bytes_eq_refl name) refl

  -- What stands under the name of a field after it is written, over what stood there.
  abbrev pub written : Field T → Option lib.Json → Option lib.Json
  written (required v) old = some (codec.to_json v)
  written (optional none) old = old
  written (optional (some v)) old = some (codec.to_json v)
  written (nullable v) old = some (optional_to_json lib codec v)

  abbrev pub found_in : Bytes → List (Bytes × Field T) → Option lib.Json → Option lib.Json
  found_in name [] old = old
  found_in name ((other, v) ∷ fields) old =
      found_in name fields (if bytes_eq other name then written v old else old)

  at-to_json_optional_own :
      (j : lib.Json) (name : Bytes) (v : Field T)
      → lib.at (to_json_optional lib codec j name v) name ≡ written v (lib.at j name)
  unfolding to_json_optional
  at-to_json_optional_own j name (required v) = assigned j name (codec.to_json v)
  at-to_json_optional_own j name (optional (some v)) = assigned j name (codec.to_json v)
  at-to_json_optional_own j name (optional none) = elim (Bool-cases (lib.is_null j)) [
    | inl e ↦ rw e (law.at-object name ∙ sym (law.at-is_null j name e))
    | inr e ↦ rw e refl
  ]
  at-to_json_optional_own j name (nullable v) = assigned j name (optional_to_json lib codec v)

  -- What stands under a name after fields are written is the last of them with that name.
  pub at-to_json_fields_found :
      (j : lib.Json) (name : Bytes) (fields : List (Bytes × Field T))
      → lib.at (to_json_fields lib codec j fields) name ≡ found_in name fields (lib.at j name)
  unfolding to_json_fields
  at-to_json_fields_found j name [] = refl
  at-to_json_fields_found j name ((other, v) ∷ fields) =
      at-to_json_fields_found (to_json_optional lib codec j other v) name fields
      ∙ elim (Bool-cases (bytes_eq other name)) [
        | inl same ↦ ap (found_in name fields) (
            rw same (
              ap (λ n. lib.at (to_json_optional lib codec j n v) name)
                ((bytes_eq_iff other name).0 same)
              ∙ at-to_json_optional_own j name v))
        | inr differ ↦
            ap (found_in name fields) (rw differ (at-to_json_optional j other name v differ))
      ]

module _ (lib : JsonLibrary) {T : Type 0} (codec : Codec lib T) (law : IsLawful lib)
    (good : IsCodec codec) where
  optional_from_json-to_json :
      (v : T) → optional_from_json lib codec (codec.to_json v) ≡ some (some v)
  unfolding optional_from_json
  optional_from_json-to_json v = rw (good.is_null-to_json v, good.get-to_json v) refl

  -- One field is read back.
  from_json_optional-to_json_optional :
      (j : lib.Json) (name : Bytes) (v : Field T)
      → lib.at j name ≡ none
      → from_found lib codec (kind_of v) (lib.at (to_json_optional lib codec j name v) name)
        ≡ some v
  unfolding from_found to_json_optional
  from_json_optional-to_json_optional j name (required v) h =
      rw (assigned lib codec law j name (codec.to_json v), good.get-to_json v) refl
  from_json_optional-to_json_optional j name (optional (some v)) h =
      rw (assigned lib codec law j name (codec.to_json v), optional_from_json-to_json v) refl
  from_json_optional-to_json_optional j name (optional none) h = elim (Bool-cases (lib.is_null j)) [
    | inl e ↦ rw (e, law.at-object name) refl
    | inr e ↦ rw (e, h) refl
  ]
  from_json_optional-to_json_optional j name (nullable (some v)) h =
      unfold optional_to_json in
      rw (assigned lib codec law j name (codec.to_json v), optional_from_json-to_json v) refl
  from_json_optional-to_json_optional j name (nullable none) h =
      unfold optional_to_json in
      unfold optional_from_json in
      rw (assigned lib codec law j name lib.null, law.is_null-null) refl

  still_none :
      (j : lib.Json) (name : Bytes) (v : Field T) (fields : List (Bytes × Field T))
      → All (λ f. bytes_eq name f.0 ≡ false) fields
      → All (λ f. lib.at j f.0 ≡ none) fields
      → All (λ f. lib.at (to_json_optional lib codec j name v) f.0 ≡ none) fields
  still_none j name v [] h k = tt
  still_none j name v ((other, w) ∷ fields) (h, hs) (k, ks) =
      (at-to_json_optional lib codec law j name other v h ∙ k, still_none j name v fields hs ks)

  fields_round_trip :
      (j : lib.Json) (fields : List (Bytes × Field T))
      → IsDistinct fields
      → All (λ f. lib.at j f.0 ≡ none) fields
      → from_json_fields lib codec (to_json_fields lib codec j fields) (kinds_of fields)
        ≡ some fields
  unfolding to_json_fields from_json_fields from_json_optional
  fields_round_trip j [] h k = refl
  fields_round_trip j ((name, v) ∷ fields) (absent, different, distinct) (k, ks) =
      let j' = to_json_optional lib codec j name v in
      rw
        (
          at-to_json_fields lib codec law j' name fields absent,
          from_json_optional-to_json_optional j name v k,
          fields_round_trip j' fields distinct (still_none j name v fields different ks),
        )
        refl

  at_null : (fields : List (Bytes × Field T)) → All (λ f. lib.at lib.null f.0 ≡ none) fields
  at_null [] = tt
  at_null ((name, v) ∷ fields) = (law.at-is_null lib.null name law.is_null-null, at_null fields)

  is_null-to_json_optional :
      (j : lib.Json) (name : Bytes) (v : Field T)
      → lib.is_null (to_json_optional lib codec j name v) ≡ false
  unfolding to_json_optional
  is_null-to_json_optional j name (required v) = law.is_null-assign j name _
  is_null-to_json_optional j name (optional (some v)) = law.is_null-assign j name _
  is_null-to_json_optional j name (optional none) = elim (Bool-cases (lib.is_null j)) [
    | inl e ↦ rw e law.is_null-object
    | inr e ↦ rw e e
  ]
  is_null-to_json_optional j name (nullable v) = law.is_null-assign j name _

  is_null-to_json_fields :
      (j : lib.Json) (fields : List (Bytes × Field T))
      → lib.is_null j ≡ false
      → lib.is_null (to_json_fields lib codec j fields) ≡ false
  unfolding to_json_fields
  is_null-to_json_fields j [] h = h
  is_null-to_json_fields j ((name, v) ∷ fields) h =
      is_null-to_json_fields (to_json_optional lib codec j name v) fields
        (is_null-to_json_optional j name v)

  -- A struct with fields of distinct names, one at least, is read back as it was written, its unset
  -- optionals and its nulls included, and what is written is not null; if the codec reads what it
  -- writes and writes no null.
  pub from_json_fields-to_json_fields :
      (name : Bytes) (v : Field T) (fields : List (Bytes × Field T))
      → IsDistinct ((name, v) ∷ fields)
      → (from_json_fields lib codec
            (to_json_fields lib codec lib.null ((name, v) ∷ fields))
            (kinds_of ((name, v) ∷ fields))
          ≡ some ((name, v) ∷ fields))
        × (lib.is_null (to_json_fields lib codec lib.null ((name, v) ∷ fields)) ≡ false)
  from_json_fields-to_json_fields name v fields distinct = (
    fields_round_trip lib.null ((name, v) ∷ fields) distinct (at_null ((name, v) ∷ fields)),
    unfold to_json_fields in
        is_null-to_json_fields (to_json_optional lib codec lib.null name v) fields
          (is_null-to_json_optional lib.null name v),
  )
