-- ===== src/Json/Decode.antt =====
-- What `json.Unmarshal` does with a value and a Go field of a simple type, and with the members of an
-- object and the fields of a struct.
use portal_conductor.Base.{String, ◌==◌, Bool, Option, none, some, if◌then◌else◌}
use portal_conductor.Base.Int.{ℤ}
use portal_conductor.Base.Text.{atoi, to_lower}
use portal_conductor.Json.{Json, Members, null, bool, number, text, object, end, member}

-- A decoder takes the value that a field has and a JSON value to the new value of the field, or to
-- none where `json.Unmarshal` ends with an error.
abbrev pub Decoder : Type 0 → Type 0
Decoder A = A → Json → Option A

unfoldable pub string_value : Decoder String
string_value old (text s) = some s
string_value old null = some old
string_value old _ = none

unfoldable pub bool_value : Decoder Bool
bool_value old (bool b) = some b
bool_value old null = some old
bool_value old _ = none

unfoldable pub int_value : Decoder ℤ
int_value old (number n) = atoi n
int_value old null = some old
int_value old _ = none

abbrev pub and_then : {A B : Type 0} → Option A → (A → Option B) → Option B
and_then none f = none
and_then (some a) f = f a

module _ {A : Type 0} where
  -- The members that name the field, in any case of letters, one after another.
  unfoldable pub overlay_field : Decoder A → String → Members → A → Option A
  overlay_field decode key end old = some old
  overlay_field decode key (member name v ms) old =
      if to_lower name == key
      then and_then (decode old v) (overlay_field decode key ms)
      else overlay_field decode key ms old

  unfoldable pub overlay_struct : (Members → A → Option A) → Decoder A
  overlay_struct fields old (object ms) = fields ms old
  overlay_struct fields old null = some old
  overlay_struct fields old _ = none

infixl 5 ◌>>=◌
abbrev pub ◌>>=◌ : {A B : Type 0} → Option A → (A → Option B) → Option B
none >>= f = none
some a >>= f = f a
