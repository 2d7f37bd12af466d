-- ===== src/Api/Body.antt =====
-- `decodeBody`: the JSON body onto a struct, and the keys that must be there and not null.
pub mod Required
use portal_conductor.Base.{String, Bool, true, false, Option, none, some, List, [], ◌∷◌}
use portal_conductor.Json.{Json, Members, null, object, end, value_of}
use portal_conductor.Json.Decode.{overlay_struct}
use portal_conductor.External.{Error, Detail, ValidationError, validation, http_error}
use portal_conductor.External.Effect.{Result, ok, err}
use portal_conductor.Api.{RequestBody, unreadable, not_json, document}

abbrev pub unprocessable : List ValidationError → Error
unprocessable vs = http_error 422 (validation vs)

abbrev pub entry : String → List String → String → ValidationError
entry kind loc msg = record { kind = kind; loc = loc; msg = msg }

abbrev pub json_invalid : String → Error
json_invalid msg = unprocessable (entry "json_invalid" ("body" ∷ []) msg ∷ [])

-- What is wrong with one required key, by the value that it has.
abbrev pub error_at : String → Option Json → Option ValidationError
error_at field none = some (entry "missing" ("body" ∷ field ∷ []) "Field required")
error_at field (some null) =
    some (entry "none_forbidden" ("body" ∷ field ∷ []) "Field may not be null")
error_at field (some _) = none

unfoldable pub field_error : Members → String → Option ValidationError
field_error ms field = error_at field (value_of field ms)

abbrev pub add_error : Option ValidationError → List ValidationError → List ValidationError
add_error none vs = vs
add_error (some v) vs = v ∷ vs

unfoldable pub field_errors : Members → List String → List ValidationError
field_errors ms [] = []
field_errors ms (field ∷ fields) = add_error (field_error ms field) (field_errors ms fields)

-- The `map[string]json.RawMessage`: nil for a null.
unfoldable pub raw_fields : Json → Option Members
raw_fields (object ms) = some ms
raw_fields null = some end
raw_fields _ = none

abbrev pub accepted : {A : Type 0} → A → List ValidationError → Result A
accepted a [] = ok a
accepted a (v ∷ vs) = err (unprocessable (v ∷ vs))

module _ {A : Type 0} (fields : Members → A → Option A) (describe : Json → String) where
  -- The second unmarshalling, and the loop over the required keys. `describe` is the text of the
  -- error of encoding/json.
  abbrev pub onto : A → List String → Json → Members → Result A
  onto dst required j ms = elim (overlay_struct fields dst j) [
    | none ↦ err (unprocessable (entry "value_error" ("body" ∷ []) (describe j) ∷ []))
    | some a ↦ accepted a (field_errors ms required)
  ]

  abbrev pub decode_document : A → List String → Json → Option Members → Result A
  decode_document dst required j none = err (json_invalid "JSON decode error")
  decode_document dst required j (some ms) = onto dst required j ms

  unfoldable pub decode_body : RequestBody → A → List String → Result A
  decode_body unreadable dst required = err (json_invalid "Failed to read request body")
  decode_body not_json dst required = err (json_invalid "JSON decode error")
  decode_body (document j) dst required = decode_document dst required j (raw_fields j)
