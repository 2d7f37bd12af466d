-- ===== src/Config/Validation/Complete.antt =====
-- What a valid configuration has, and which field an invalid one is rejected for.
use portal_conductor.Base.{
  String, ◌<>◌, ◌==◌, ◌≡◌, true, false, Option, none, some, List, [], ◌∷◌, All, ◌⊎◌,
}
use portal_conductor.Config.{Config}
use portal_conductor.Config.Validation.{RequiredField}

abbrev pub IsFilled : RequiredField → Type 0
IsFilled f = (f.value == "") ≡ false

-- The field is the first one of the list without a value.
abbrev pub IsFirstEmpty : RequiredField → List RequiredField → Type 0
IsFirstEmpty f [] = true ≡ false
IsFirstEmpty f (g ∷ gs) = ((f ≡ g) × ((g.value == "") ≡ true)) ⊎ (IsFilled g × IsFirstEmpty f gs)

abbrev complaint : RequiredField → String
complaint f = "required configuration field '" <> f.name <> "' is not set"

-- The result of the validation of a list of fields.
abbrev pub Verdict : List RequiredField → Option String → Type 0
Verdict fs none = All IsFilled fs
Verdict fs (some msg) = (f : RequiredField) × IsFirstEmpty f fs × (msg ≡ complaint f)
