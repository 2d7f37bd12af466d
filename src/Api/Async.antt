-- ===== src/Api/Async.antt =====
-- api/async.go: the deletion of a user as a job of Terrain.
pub mod Parameter
pub mod AnalysisId
pub mod AppId
pub mod Exchanges
use portal_conductor.Base.{
  ◌/◌, String, ◌<>◌, ◌==◌, ◌≡◌, Bool, true, false, Option, none, some, List, [], ◌∷◌, if◌then◌else◌,
}
use portal_conductor.Base.Int.{ℤ, pos, negsuc}
use portal_conductor.Base.Text.{itoa}
use portal_conductor.Base.Path.{clean}
use portal_conductor.Json.{Json, Items, Members, bool, text, object, nil, item, end, member}
use portal_conductor.Config.{Config}
use portal_conductor.Config.Validation.{terrain_async_configured}
use portal_conductor.External.{Error, message}
use portal_conductor.External.Effect.{
  Result, ok, err, Call, Done, pure, fail, lift, observe, ◌>>=◌, ◌>>◌,
}
use portal_conductor.Http.{Http}
use portal_conductor.Terrain
use portal_conductor.Terrain.{Client, Time}
use portal_conductor.Terrain.Calls.{
  items_at, text_at, get_app_id_by_name, get_app_job_view, launch_analysis, list_analyses,
  get_analysis_by_id,
}
use portal_conductor.Kinds.{AnalysisListItem}
use portal_conductor.Api.{Request, Handler, submitted, analysis_status, analyses, raw}
use portal_conductor.Api.Errors.{write_json, http_errorf}
use portal_conductor.Api.Async.Parameter.{Floats, string_at, param_of_groups}
use portal_conductor.Api.Async.AnalysisId.{analysis_id_param}

-- The field `deletionAppID` of the process, under its lock.
pub record AppMemory (W : Type 0) : Type 0 where
  pub app_id : W → String
  pub set_app_id : String → W → W
  pub app_id-set_app_id : (s : String) (w : W) → app_id (set_app_id s w) ≡ s

-- `Time.Unix()`: whole seconds, rounded down.
abbrev pub unix_seconds : Time → ℤ
unix_seconds (pos n) = pos (n / 1_000_000_000)
unix_seconds (negsuc n) = negsuc (n / 1_000_000_000)

-- The status of a document, where it is a text.
abbrev pub status_or : String → Members → String
status_or other ms = elim (string_at "status" ms) [ some s ↦ s | none ↦ other ]

abbrev pub list_item : Members → AnalysisListItem
list_item ms = record {
  analysis_id = text_at "id" ms;
  name = text_at "name" ms;
  app_id = text_at "app_id" ms;
  system_id = text_at "system_id" ms;
  status = text_at "status" ms;
}

-- The entries of the listing that are objects.
unfoldable pub list_items : Items → List AnalysisListItem
list_items nil = []
list_items (item (object ms) js) = list_item ms ∷ list_items js
list_items (item _ js) = list_items js

abbrev pub not_configured : Error
not_configured = http_errorf 503 "Terrain integration not configured."

abbrev pub no_app_id : Error
no_app_id = http_errorf 500 (
    "Terrain user deletion app ID not configured. "
    <> "Check that either user_deletion_app_id is set or "
    <> "user_deletion_app_name refers to a valid app.")

abbrev pub no_parameter : Error
no_parameter = http_errorf 500 (
    "Could not find username parameter in app configuration. "
    <> "Expected a parameter with label 'Username' or a visible required Text parameter.")

-- The submission of the deletion of a user, by the name of the job.
abbrev pub submission : String → String → String → String → Members
submission home param_id username name = member "name" (text name) (
    member "config" (object (member param_id (text username) end)) (
      member "debug" (bool false) (
        member "notify" (bool true)
          (member "output_dir" (text (clean (home <> "/analyses/" <> name))) end))))

-- `equal_fold` is `strings.EqualFold`, and `shown` the `%v` of a map. The Terrain client is there: main
-- always builds it.
module _ {W : Type 0} (H : Http W) (M : Terrain.Memory W) (A : AppMemory W) (c : Client)
    (cfg : Config) (floats : Floats) (equal_fold : String → String → Bool)
    (shown : Members → String) where
  -- `ensureAsyncConfigured`.
  unfoldable pub ensure_async_configured : Call W Done
  ensure_async_configured = if terrain_async_configured cfg then pure tt else fail not_configured

  abbrev reads_app_id : W → String × W
  reads_app_id w = (A.app_id w, w)

  abbrev stores_app_id : String → W → String × W
  stores_app_id id w = (id, A.set_app_id id w)

  abbrev remember_found : String → Call W String
  remember_found id = if id == "" then fail no_app_id else observe (stores_app_id id)

  abbrev look_up_app_id : Call W String
  look_up_app_id =
      if cfg.terrain.user_deletion_app_name == ""
      then fail no_app_id
      else (get_app_id_by_name H M c equal_fold cfg.terrain.system_id
            cfg.terrain.user_deletion_app_name
          >>= remember_found)

  abbrev app_id_or_look_up : String → Call W String
  app_id_or_look_up cached = if cached == "" then look_up_app_id else pure cached

  -- `resolveDeletionAppID`.
  unfoldable pub resolve_deletion_app_id : Call W String
  resolve_deletion_app_id = observe reads_app_id >>= app_id_or_look_up

  abbrev found_param : Option String → Result String
  found_param (some id) = ok id
  found_param none = err no_parameter

  -- `usernameParamID`.
  unfoldable pub username_param_id : String → String → Call W String
  username_param_id system_id app_id = do
    job_view ← get_app_job_view H M c system_id app_id
    lift (found_param (param_of_groups floats (items_at "groups" job_view)))

  abbrev reads_seconds : W → ℤ × W
  reads_seconds w = (unix_seconds (M.now w), w)

  abbrev launched_id : Members → Result String
  launched_id result =
      if text_at "id" result == ""
      then err (
          message (
            "terrain launch response is missing the analysis id; the deletion may not have been "
            <> "submitted: "
            <> shown result))
      else ok (text_at "id" result)

  -- `home` is `UserHome` of the datastore.
  unfoldable pub delete_user_async : (String → String) → Handler W
  delete_user_async home r = do
    ensure_async_configured
    app_id ← resolve_deletion_app_id
    param_id ← username_param_id cfg.terrain.system_id app_id
    seconds ← observe reads_seconds
    let name = "user-deletion-" <> r.path_value "username" <> "-" <> itoa seconds
    result ←
        launch_analysis H M c cfg.terrain.system_id app_id
          (submission (home cfg.terrain.user) param_id (r.path_value "username") name)
    analysis_id ← lift (launched_id result)
    pure (
        write_json 200 (
          submitted (record {
            user = r.path_value "username";
            analysis_id = analysis_id;
            status = status_or "Submitted" result;
          })))

  unfoldable pub get_deletion_status : Handler W
  get_deletion_status r = do
    analysis_id ← lift (analysis_id_param r)
    ensure_async_configured
    result ← get_analysis_by_id H M c analysis_id
    pure (
        write_json 200 (
          analysis_status (record {
            analysis_id = analysis_id;
            status = status_or "Unknown" result;
            url_ready = some false;
            url = none;
          })))

  abbrev status_filter : String → String
  status_filter status = if status == "" then "Running" else status

  unfoldable pub list_deletion_analyses : Handler W
  list_deletion_analyses r = do
    ensure_async_configured
    result ← list_analyses H M c (status_filter (r.query_value "status"))
    pure (write_json 200 (analyses (list_items (items_at "analyses" result))))

  unfoldable pub get_analysis_details : Handler W
  get_analysis_details r = do
    analysis_id ← lift (analysis_id_param r)
    ensure_async_configured
    result ← get_analysis_by_id H M c analysis_id
    pure (write_json 200 (raw result))
