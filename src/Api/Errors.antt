-- ===== src/Api/Errors.antt =====
-- From errors to responses: `httpErrorf`, `writeJSON`, `writeDetail` and `handle`.
pub mod Mapping
use portal_conductor.Base.{ℕ, String, ◌<>◌, Option, none, some, nat_eq, if◌then◌else◌}
use portal_conductor.Base.Text.{itoa_ℕ}
use portal_conductor.External.{
  Error, Detail, text, http_error, as_http_error, as_status_error, as_request_error,
}
use portal_conductor.External.Effect.{Result, ok, err, Call}
use portal_conductor.Api.{Request, Response, Payload, detail, Handler}

-- `httpErrorf`, over the formatted text.
abbrev pub http_errorf : ℕ → String → Error
http_errorf status s = http_error status (text s)

abbrev pub write_json : ℕ → Payload → Response
write_json status payload = record { status = status; challenge = none; payload = payload }

abbrev pub write_detail : ℕ → Detail → Response
write_detail status d = write_json status (detail d)

-- The cascade of `errors.As` in `handle`.
unfoldable pub error_response : Error → Response
error_response e = elim (as_http_error e) [
  | some (status, d) ↦ write_detail status d
  | none ↦ elim (as_status_error e) [
    | some (status, _, _) ↦
        if nat_eq status 404
        then write_detail 404 (text "Resource not found in external service")
        else write_detail 502 (text ("External service error: " <> itoa_ℕ status))
    | none ↦ elim (as_request_error e) [
      | some _ ↦ write_detail 503 (text "Failed to connect to external service")
      | none ↦ write_detail 500 (text "Internal server error")
    ]
  ]
]

unfoldable pub response_of : Result Response → Response
unfolding error_response
response_of (ok r) = r
response_of (err e) = error_response e

-- `handle`.
unfoldable pub handle : {W : Type 0} → Handler W → Request → W → Response × W
unfolding response_of
handle fn r w = let (result, w') = fn r w in (response_of result, w')
