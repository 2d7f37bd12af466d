-- ===== src/Api/JobLimits.antt =====
-- api/terrainmgmt.go: the limit of concurrent jobs of a user.
use portal_conductor.Base.{String, ◌<>◌, true, Option, none, some, [], ◌∷◌, nat_eq, if◌then◌else◌}
use portal_conductor.Base.Int.{ℤ, pos}
use portal_conductor.Base.Text.{itoa}
use portal_conductor.Json.{Json, Members, number, value_of}
use portal_conductor.Json.Decode.{overlay_field, int_value}
use portal_conductor.External.{Error, error_text, status_code_of}
use portal_conductor.External.Effect.{pure, lift, rethrow, ◌>>=◌, ◌>>◌}
use portal_conductor.Http.{Http}
use portal_conductor.Terrain
use portal_conductor.Terrain.{Client}
use portal_conductor.Terrain.Calls.{get_concurrent_job_limits, set_concurrent_job_limits}
use portal_conductor.Api.{Handler, generic, job_limits}
use portal_conductor.Api.Errors.{write_json, http_errorf}
use portal_conductor.Api.Body.{decode_body}
use portal_conductor.Api.Async.Parameter.{Floats}

-- The errors of `getJobLimits`: a 404 of Terrain has a text of its own.
abbrev pub limits_error : String → Error → Error
limits_error username e =
    if nat_eq (status_code_of e) 404
    then http_errorf 404 ("No job limits configured for user '" <> username <> "'")
    else http_errorf 500 ("Failed to retrieve job limits: " <> error_text e)

-- `result["concurrent_jobs"].(float64)`
abbrev pub jobs_of : Floats → Members → Option ℤ
jobs_of floats ms = elim (value_of "concurrent_jobs" ms) [
  | some (number n) ↦ some (floats.to_int n)
  | _ ↦ none
]

abbrev limit_fields : Members → ℤ → Option ℤ
limit_fields ms n = overlay_field int_value "limit" ms n

abbrev set_error : Error → Error
set_error e = http_errorf 500 ("Failed to set job limits: " <> error_text e)

module _ {W : Type 0} (H : Http W) (M : Terrain.Memory W) (c : Client) (floats : Floats)
    (describe : Json → String) where
  unfoldable pub get_job_limits : Handler W
  get_job_limits r = do
    result ←
        rethrow (limits_error (r.path_value "username"))
          (get_concurrent_job_limits H M c (r.path_value "username"))
    pure (
        write_json 200 (
          job_limits (record {
            username = r.path_value "username";
            concurrent_jobs = jobs_of floats result;
          })))

  unfoldable pub set_job_limits : Handler W
  set_job_limits r = do
    limit ← lift (decode_body limit_fields describe r.body (pos 0) ("limit" ∷ []))
    rethrow set_error (set_concurrent_job_limits H M c (r.path_value "username") limit)
    pure (
        write_json 200 (
          generic true ("Set job limit " <> itoa limit <> " for user " <> r.path_value "username")))
