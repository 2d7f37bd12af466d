-- ===== src/Api/Async/Parameter.antt =====
-- api/async.go: `truthy`, and the parameter of an app that receives the name of the user.
pub mod Choice
use mathlib.Core.List.{reverse}
use portal_conductor.Base.{
  String, ◌==◌, Bool, true, false, not, ◌&&◌, ◌||◌, Option, none, some, List, [], ◌∷◌,
  if◌then◌else◌,
}
use portal_conductor.Base.Int.{ℤ}
use portal_conductor.Base.Text.{to_lower}
use portal_conductor.Base.Text.Search.{has_part}
use portal_conductor.Json.{
  Json, Items, Members, null, bool, number, text, array, object, nil, item, end, member, value_of,
}
use portal_conductor.Terrain.Calls.{items_at, text_at, is_text_at, objects_where}

-- The float64 of the literal of a number: whether it is 0, and its conversion to an int.
pub record Floats : Type 0 where
  pub is_zero : String → Bool
  pub to_int : String → ℤ

-- `id, ok := m[key].(string)`
abbrev pub string_at : String → Members → Option String
string_at key ms = elim (value_of key ms) [ some (text s) ↦ some s | _ ↦ none ]

abbrev any_object : Members → Bool
any_object ms = true

-- The id that one round of a loop returns, if any.
abbrev pub id_where : (Members → Bool) → Members → Option String
id_where test param = if test param then string_at "id" param else none

abbrev pub or_else : Option String → Option String → Option String
or_else (some id) later = some id
or_else none later = later

unfoldable pub first_where : (Members → Bool) → List Members → Option String
first_where test [] = none
first_where test (param ∷ params) = or_else (id_where test param) (first_where test params)

-- The test of the first loop.
unfoldable pub is_labelled : Members → Bool
is_labelled param =
    has_part (to_lower (text_at "label" param)) "username"
    || has_part (to_lower (text_at "label" param)) "user name"

-- The parameters of a group that are objects. A group without parameters has nothing to return.
abbrev pub params_of : Members → List Members
params_of group = objects_where any_object (items_at "parameters" group)

module _ (floats : Floats) where
  -- `truthy`.
  abbrev pub truthy : Json → Bool
  truthy null = false
  truthy (bool b) = b
  truthy (text s) = not (s == "")
  truthy (number n) = not (floats.is_zero n)
  truthy (array nil) = false
  truthy (array (item j js)) = true
  truthy (object end) = false
  truthy (object (member k v ms)) = true

  -- `truthy(param[key])`, where a missing key is nil.
  abbrev pub truthy_at : String → Members → Bool
  truthy_at key ms = elim (value_of key ms) [ some j ↦ truthy j | none ↦ false ]

  -- The tests of the other two loops.
  unfoldable pub is_positional : Members → Bool
  is_positional param =
      is_text_at "type" "Text" param
      && truthy_at "isVisible" param
      && truthy_at "required" param
      && not (truthy_at "defaultValue" param)
      && not (truthy_at "name" param)

  unfoldable pub is_required : Members → Bool
  is_required param = truthy_at "isVisible" param && truthy_at "required" param

  -- The three loops over the parameters of a group; the last one runs from the end.
  unfoldable pub param_in : List Members → Option String
  param_in params =
      or_else (first_where is_labelled params)
        (or_else (first_where is_positional params) (first_where is_required (reverse params)))

  -- The loop over the groups.
  unfoldable pub param_of_groups : Items → Option String
  param_of_groups nil = none
  param_of_groups (item (object group) js) =
      or_else (param_in (params_of group)) (param_of_groups js)
  param_of_groups (item _ js) = param_of_groups js
