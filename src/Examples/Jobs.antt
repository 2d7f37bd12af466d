-- ===== src/Examples/Jobs.antt =====
-- The deletion as a job of Terrain, on concrete inputs.
use portal_conductor.Base.{String, ◌==◌, ◌≡◌, refl, true, false, none, if◌then◌else◌}
use portal_conductor.Json.{
  Items, Members, bool, text, array, object, nil, item, end, member, value_of,
}
use portal_conductor.Config.{defaults}
use portal_conductor.External.Effect
use portal_conductor.External.Effect.{ok}
use portal_conductor.External.Effect.Costs.{Costs}
use portal_conductor.Terrain.{Client}
use portal_conductor.Terrain.Calls.{objects_where}
use portal_conductor.Base.Text.{to_lower}
use portal_conductor.Base.Text.Search.{has_part}
use portal_conductor.Base.Regexp.{match_at}
use portal_conductor.Api.{Request, not_json}
use portal_conductor.Api.Async.{resolve_deletion_app_id, delete_user_async}
use portal_conductor.Api.Async.AnalysisId.{analysis_id_param}
use portal_conductor.Api.Async.AnalysisId.Shape.{IsUuid, analysis_id_param-IsUuid}
use portal_conductor.Api.Async.AppId.{resolve_deletion_app_id-known}
use portal_conductor.Api.Async.Exchanges.{beside_calls, delete_user_async-Costs}
use portal_conductor.Terrain.Exchanges.{calls, counted, beside_count}
use portal_conductor.Api.Async.Parameter.{
  first_where, param_in, param_of_groups, is_labelled, is_positional, is_required,
}
use portal_conductor.Api.Async.Parameter.Choice.{Selected, param_of_groups-Selects}
use portal_conductor.Examples.World.{World, start}
use portal_conductor.Examples.Network.{roster_http, app_memory, floats}
use portal_conductor.Examples.Services.{memory}

-- A parameter with a label, and one that is only required.
abbrev labelled : Members
labelled = member "label" (text "User Name") (member "id" (text "p2") end)

abbrev required : Members
required =
    member "id" (text "p1") (member "isVisible" (bool true) (member "required" (bool true) end))

abbrev groups : Items
groups =
    item
      (object
        (member "parameters" (array (item (object required) (item (object labelled) nil))) end))
      nil

param_of_groups-Selects_example : Selected floats "p2" groups
unfolding param_of_groups param_in first_where is_labelled is_positional is_required value_of
    objects_where to_lower has_part
param_of_groups-Selects_example = param_of_groups-Selects floats groups

abbrev about_job : Request
about_job = record {
  credentials = none;
  path_value = λ key. if key == "username" then "ann" else "01234567-89ab-cdef-0123-456789ABCDEF";
  query_value = λ key. "";
  body = not_json;
}

analysis_id_param-IsUuid_example :
    ◌≡◌ {A = String} "01234567-89ab-cdef-0123-456789ABCDEF" "01234567-89ab-cdef-0123-456789ABCDEF"
    × IsUuid "01234567-89ab-cdef-0123-456789ABCDEF"
unfolding analysis_id_param match_at
analysis_id_param-IsUuid_example = analysis_id_param-IsUuid about_job

abbrev terrain : Client
terrain = record { base_url = "https://t"; username = "portal"; password = "pw" }

-- The process has the identifier from its configuration.
abbrev configured : World
configured = record start { app_id = "app-1" }

resolve_deletion_app_id-known_example :
    (("app-1" == "") ≡ false)
    × (resolve_deletion_app_id roster_http memory app_memory terrain defaults floats ◌==◌
          (λ ms. "{}")
          configured
        ≡ (ok "app-1", configured))
unfolding resolve_deletion_app_id Effect.◌>>=◌ Effect.observe Effect.pure
resolve_deletion_app_id-known_example =
    resolve_deletion_app_id-known roster_http memory app_memory terrain defaults floats ◌==◌
      (λ ms. "{}") configured "app-1" refl

delete_user_async-Costs_example : Costs calls 12 (
    delete_user_async
      (counted roster_http)
      (beside_count memory)
      (beside_calls app_memory)
      terrain
      defaults
      floats
      ◌==◌
      (λ ms. "{}")
      (λ u. "/zone/home")
      about_job)
delete_user_async-Costs_example =
    delete_user_async-Costs roster_http memory app_memory terrain defaults floats ◌==◌ (λ ms. "{}")
      (λ u. "/zone/home") about_job
