-- ===== src/Terrain/Calls.antt =====
-- Authenticated calls: `attempt`, `doAuthedJSON` and the endpoints.
use portal_conductor.Base.{
  String, ◌<>◌, ◌==◌, Bool, true, false, ◌||◌, Option, none, some, List, [], ◌∷◌, nat_eq,
  if◌then◌else◌,
}
use portal_conductor.Base.Int.{ℤ}
use portal_conductor.Base.Text.{itoa}
use portal_conductor.Json.{
  Json, Items, Members, null, number, text, array, object, nil, item, end, member, value_of,
}
use portal_conductor.External.{message, status_error, HttpResponse}
use portal_conductor.External.Effect.{Result, ok, err, Call, Done, pure, lift, try, ◌>>=◌}
use portal_conductor.Http.{Http, Url, Request, Method, get, put, post, bearer, plain, encoded}
use portal_conductor.Terrain.{Client, Memory}
use portal_conductor.Terrain.Token.{access_token, api_url, sent, checked, json_of}

-- The `map[string]any` that a body decodes to; a null leaves it nil.
abbrev members_of : Json → Result Members
members_of (object ms) = ok ms
members_of null = ok end
members_of _ = err (message "decoding response: the body is no object")

-- `v, _ := m[key].([]any)`
abbrev pub items_at : String → Members → Items
items_at key ms = elim (value_of key ms) [ some (array js) ↦ js | _ ↦ nil ]

-- `v, _ := m[key].(string)`
abbrev pub text_at : String → Members → String
text_at key ms = elim (value_of key ms) [ some (text s) ↦ s | _ ↦ "" ]

-- `app["system_id"] == systemID`, the comparison of an `any` with a text.
abbrev pub is_text_at : String → String → Members → Bool
is_text_at key s ms = elim (value_of key ms) [ some (text t) ↦ t == s | _ ↦ false ]

-- The objects of a list that pass a test.
unfoldable pub objects_where : (Members → Bool) → Items → List Members
objects_where test nil = []
objects_where test (item (object ms) js) =
    let rest = objects_where test js in if test ms then ms ∷ rest else rest
objects_where test (item _ js) = objects_where test js

-- `return appField(app, "id")` for the first app that passes a test.
unfoldable pub first_id : (Members → Bool) → List Members → Option String
first_id test [] = none
first_id test (app ∷ apps) = if test app then some (text_at "id" app) else first_id test apps

-- The two loops over the apps of the system; `equal_fold` is `strings.EqualFold`.
unfoldable pub choose_app : (String → String → Bool) → String → List Members → String
choose_app equal_fold name apps = elim (first_id (λ app. text_at "name" app == name) apps) [
  | some id ↦ id
  | none ↦ elim (first_id (λ app. equal_fold (text_at "name" app) name) apps) [
    | some id ↦ id
    | none ↦ ""
  ]
]

-- The copy of the submission, and the two assignments after it.
unfoldable pub with_app : String → String → Members → Members
with_app system_id app_id end =
    member "system_id" (text system_id) (member "app_id" (text app_id) end)
with_app system_id app_id (member k v ms) = member k v (with_app system_id app_id ms)

abbrev first_item : Items → Option Json
first_item nil = none
first_item (item j js) = some j

abbrev is_denied : HttpResponse → Bool
is_denied resp = nat_eq resp.status 401 || nat_eq resp.status 403

module _ {W : Type 0} (H : Http W) (M : Memory W) (c : Client) where
  abbrev authed : Method → Url → Option Json → String → Request
  authed method url payload token = record {
    method = method;
    url = url;
    authorization = bearer token;
    payload = payload;
  }

  unfoldable pub attempt : Method → Url → Option Json → Bool → Call W HttpResponse
  attempt method url payload force = do
    token ← access_token H M c force
    let req = authed method url payload token
    r ← try (H.send req)
    lift (sent H M c req r)

  -- One retry with a fresh token after a 401 or a 403.
  unfoldable pub attempt_twice : Method → Url → Option Json → Call W HttpResponse
  attempt_twice method url payload = do
    resp ← attempt method url payload false
    if is_denied resp then attempt method url payload true else pure resp

  -- `doAuthedJSON` with an `out`, and without one.
  unfoldable pub do_authed_json : Method → Url → Option Json → Call W Members
  do_authed_json method url payload = do
    resp ← attempt_twice method url payload
    resp' ← lift (checked H M c resp)
    j ← lift (json_of H M c url resp')
    lift (members_of j)

  unfoldable pub do_authed : Method → Url → Option Json → Call W Done
  do_authed method url payload = do
    resp ← attempt_twice method url payload
    resp' ← lift (checked H M c resp)
    pure tt

  abbrev limits_url : String → Url
  limits_url username =
      api_url H M c ("admin" ∷ "settings" ∷ "concurrent-job-limits" ∷ username ∷ []) []

  unfoldable pub get_concurrent_job_limits : String → Call W Members
  get_concurrent_job_limits username = do_authed_json get (limits_url username) none

  unfoldable pub set_concurrent_job_limits : String → ℤ → Call W Done
  set_concurrent_job_limits username limit =
      do_authed put (limits_url username)
        (some (object (member "concurrent_jobs" (number (itoa limit)) end)))

  unfoldable pub search_apps : String → Call W Members
  search_apps search =
      do_authed_json get (api_url H M c ("apps" ∷ []) (("search", plain search) ∷ [])) none

  unfoldable pub get_app_id_by_name : (String → String → Bool) → String → String → Call W String
  get_app_id_by_name equal_fold system_id app_name = do
    results ← search_apps app_name
    pure (
        choose_app equal_fold app_name
          (objects_where (is_text_at "system_id" system_id) (items_at "apps" results)))

  unfoldable pub get_app_job_view : String → String → Call W Members
  get_app_job_view system_id app_id =
      do_authed_json get (api_url H M c ("apps" ∷ system_id ∷ app_id ∷ []) []) none

  -- The keys of the submission with the two that are set after the copy.
  unfoldable pub launch_analysis : String → String → Members → Call W Members
  launch_analysis system_id app_id submission =
      do_authed_json post (api_url H M c ("analyses" ∷ []) [])
        (some (object (with_app system_id app_id submission)))

  abbrev filter_of : String → String → Json
  filter_of field value =
      array (item (object (member "field" (text field) (member "value" (text value) end))) nil)

  unfoldable pub list_analyses_filtered : String → String → Call W Members
  list_analyses_filtered field value =
      do_authed_json get
        (api_url H M c ("analyses" ∷ []) (("filter", encoded (filter_of field value)) ∷ [])) none

  unfoldable pub list_analyses : String → Call W Members
  list_analyses status = list_analyses_filtered "status" status

  -- The first entry of the listing, which must be an object. The text of the error for another one leaves
  -- the entry out.
  abbrev pub the_analysis : String → Option Json → Result Members
  the_analysis analysis_id none = err (
      status_error 404 (H.url_text (api_url H M c ("analyses" ∷ []) []))
        ("analysis " <> analysis_id <> " not found"))
  the_analysis analysis_id (some (object ms)) = ok ms
  the_analysis analysis_id (some _) =
      err (message ("unexpected analysis listing entry for " <> analysis_id))

  unfoldable pub get_analysis_by_id : String → Call W Members
  get_analysis_by_id analysis_id = do
    result ← list_analyses_filtered "id" analysis_id
    lift (the_analysis analysis_id (first_item (items_at "analyses" result)))
