-- ===== src/Api/Async/Parameter/Choice.antt =====
-- The parameter that is chosen for the name of the user.
use mathlib.Core.List.{reverse}
use portal_conductor.Base.{
  String, ◌≡◌, refl, Bool, true, false, Option, none, some, List, [], ◌∷◌, ◌⊎◌, inl, inr, All,
  Bool-cases, Option-cases,
}
use portal_conductor.Json.{Json, Items, Members, null, bool, number, text, array, object, nil, item}
use portal_conductor.Api.Async.Parameter.{
  Floats, string_at, is_labelled, is_positional, is_required, first_where, param_in, params_of,
  param_of_groups, or_else, id_where,
}

-- A parameter that a loop passes over: it fails the test, or has no id that is a text.
abbrev pub IsUnfit : (Members → Bool) → Members → Type 0
IsUnfit test param = (test param ≡ false) ⊎ (string_at "id" param ≡ none)

-- The first parameter that passes a test and has an id, by that id.
pub data First (test : Members → Bool) (id : String) : List Members → Type 0 where
  here :
      {param : Members} {params : List Members}
      → test param ≡ true
      → string_at "id" param ≡ some id
      → First test id (param ∷ params)
  later :
      {param : Members} {params : List Members}
      → IsUnfit test param
      → First test id params
      → First test id (param ∷ params)

abbrev Found : (Members → Bool) → List Members → Option String → Type 0
Found test params (some id) = First test id params
Found test params none = All (IsUnfit test) params

after_round :
    (test : Members → Bool) (param : Members) (params : List Members) (rest : Option String)
    → Found test params rest
    → Found test (param ∷ params) (or_else (id_where test param) rest)
after_round test param params rest f = elim (Bool-cases (test param)) [
  | inl e ↦ rw e (by_id (Option-cases (string_at "id" param)) e)
  | inr e ↦ rw e (passed rest (inl e) f)
]
  where
    passed :
        (o : Option String)
        → IsUnfit test param
        → Found test params o
        → Found test (param ∷ params) o
    passed (some id) u g = later u g
    passed none u g = (u, g)

    by_id :
        (string_at "id" param ≡ none) ⊎ ((id : String) × (string_at "id" param ≡ some id))
        → test param ≡ true
        → Found test (param ∷ params) (or_else (string_at "id" param) rest)
    by_id (inl h) e = rw h (passed rest (inr h) f)
    by_id (inr (id, h)) e = rw h (here e h)

first_where-Found :
    (test : Members → Bool) (params : List Members) → Found test params (first_where test params)
unfolding first_where
first_where-Found test [] = tt
first_where-Found test (param ∷ params) =
    after_round test param params (first_where test params) (first_where-Found test params)

module _ (floats : Floats) where
  -- The three sorts of parameters, in the order of preference. Of the last sort the last one counts.
  pub data Chosen (params : List Members) (id : String) : Type 0 where
    by_label : First (is_labelled) id params → Chosen params id
    by_text :
        All (IsUnfit (is_labelled)) params
        → First (is_positional floats) id params
        → Chosen params id
    by_order :
        All (IsUnfit (is_labelled)) params
        → All (IsUnfit (is_positional floats)) params
        → First (is_required floats) id (reverse params)
        → Chosen params id

  -- No parameter is of any of the sorts.
  abbrev pub HasNone : List Members → Type 0
  HasNone params =
      All (IsUnfit (is_labelled)) params
      × All (IsUnfit (is_positional floats)) params
      × All (IsUnfit (is_required floats)) (reverse params)

  abbrev pub Answers : List Members → Option String → Type 0
  Answers params (some id) = Chosen params id
  Answers params none = HasNone params

  param_in-Answers : (params : List Members) → Answers params (param_in floats params)
  unfolding param_in
  param_in-Answers params =
      combined (first_where is_labelled params) (first_where (is_positional floats) params)
        (first_where (is_required floats) (reverse params)) (first_where-Found _ params)
        (first_where-Found _ params) (first_where-Found _ (reverse params))
    where
      combined :
          (l p q : Option String)
          → Found is_labelled params l
          → Found (is_positional floats) params p
          → Found (is_required floats) (reverse params) q
          → Answers params (or_else l (or_else p q))
      combined (some id) p q fl fp fq = by_label fl
      combined none (some id) q fl fp fq = by_text fl fp
      combined none none (some id) fl fp fq = by_order fl fp fq
      combined none none none fl fp fq = (fl, fp, fq)

  abbrev pub is_object : Json → Bool
  is_object (object ms) = true
  is_object _ = false

  -- The choice of the first group that has a parameter of one of the sorts.
  pub data Selected (id : String) : Items → Type 0 where
    here :
        {group : Members} {js : Items}
        → Chosen (params_of group) id
        → Selected id (item (object group) js)
    later :
        {group : Members} {js : Items}
        → HasNone (params_of group)
        → Selected id js
        → Selected id (item (object group) js)
    no_group :
        {j : Json} {js : Items} → is_object j ≡ false → Selected id js → Selected id (item j js)

  -- No group has such a parameter.
  abbrev pub NoneIn : Items → Type 0
  NoneIn nil = Unit
  NoneIn (item (object group) js) = HasNone (params_of group) × NoneIn js
  NoneIn (item _ js) = NoneIn js

  abbrev pub Selects : Items → Option String → Type 0
  Selects js (some id) = Selected id js
  Selects js none = NoneIn js

  after_group :
      (group : Members) (js : Items) (o rest : Option String)
      → Answers (params_of group) o
      → Selects js rest
      → Selects (item (object group) js) (or_else o rest)
  after_group group js (some id) rest a s = Selected.here a
  after_group group js none (some id) a s = Selected.later a s
  after_group group js none none a s = (a, s)

  after_other :
      (j : Json) (js : Items) (rest : Option String)
      → is_object j ≡ false
      → (Selects js rest → Selects (item j js) rest)
  after_other j js (some id) e s = no_group e s
  after_other null js none e s = s
  after_other (bool b) js none e s = s
  after_other (number n) js none e s = s
  after_other (text t) js none e s = s
  after_other (array a) js none e s = s
  after_other (object g) js none e s = cc

  -- The parameter that receives the name of the user is in the first group that has one with a
  -- suitable label, a positional text or a visible required one, with an id; within the group the
  -- first of the first sort, else the first of the second, else the last of the third. Where none is
  -- chosen, no group has one.
  pub param_of_groups-Selects : (js : Items) → Selects js (param_of_groups floats js)
  unfolding param_of_groups
  param_of_groups-Selects nil = tt
  param_of_groups-Selects (item (object group) js) =
      after_group group js (param_in floats (params_of group)) (param_of_groups floats js)
        (param_in-Answers (params_of group)) (param_of_groups-Selects js)
  param_of_groups-Selects (item null js) = after_other null js _ refl (param_of_groups-Selects js)
  param_of_groups-Selects (item (bool b) js) =
      after_other (bool b) js _ refl (param_of_groups-Selects js)
  param_of_groups-Selects (item (number n) js) =
      after_other (number n) js _ refl (param_of_groups-Selects js)
  param_of_groups-Selects (item (text t) js) =
      after_other (text t) js _ refl (param_of_groups-Selects js)
  param_of_groups-Selects (item (array a) js) =
      after_other (array a) js _ refl (param_of_groups-Selects js)
