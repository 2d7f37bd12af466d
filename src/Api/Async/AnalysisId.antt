-- ===== src/Api/Async/AnalysisId.antt =====
-- api/async.go: `analysisIDParam`.
pub mod Shape
use portal_conductor.Base.{String, ◌++◌, List, [], ◌∷◌, nat_eq, if◌then◌else◌}
use portal_conductor.Base.Regexp.{Pattern, one, match_whole}
use portal_conductor.Base.Regexp.Words.{times, is_hex}
use portal_conductor.External.{Error, validation, http_error}
use portal_conductor.External.Effect.{Result, ok, err}
use portal_conductor.Api.{Request}
use portal_conductor.Api.Body.{entry}

abbrev dash : Pattern
dash = one (nat_eq b'-') ∷ []

-- `uuidRE`.
abbrev pub uuid_pattern : Pattern
uuid_pattern =
    times 8 is_hex
    ++ (dash
        ++ (times 4 is_hex
            ++ (dash
                ++ (times 4 is_hex ++ (dash ++ (times 4 is_hex ++ (dash ++ times 12 is_hex)))))))

abbrev pub no_uuid : Error
no_uuid = http_error 422 (
    validation
      (entry "uuid_parsing" ("path" ∷ "analysis_id" ∷ []) "Input should be a valid UUID" ∷ []))

-- `analysisIDParam`.
unfoldable pub analysis_id_param : Request → Result String
unfolding match_whole
analysis_id_param r =
    if match_whole uuid_pattern (r.path_value "analysis_id")
    then ok (r.path_value "analysis_id")
    else err no_uuid
