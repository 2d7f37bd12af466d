-- ===== src/Terrain/Token.antt =====
-- Tokens: `TokenExpiry`, `GetKeycloakToken` and `accessToken`.
pub mod Cache
use portal_conductor.Base.{
  ℕ, ◌*◌, ◌-◌, suc, String, ◌<>◌, ◌==◌, Bool, ◌||◌, Option, none, some, List, [], ◌∷◌,
  if◌then◌else◌,
}
use portal_conductor.Base.Int.{ℤ, pos, negsuc}
use portal_conductor.Json.{Json, null, object}
use portal_conductor.Json.Decode.{overlay_field, string_value, int_value}
use portal_conductor.External.{message, request_error, check_response, HttpResponse}
use portal_conductor.External.Effect.{Result, ok, err, Call, Done, lift, observe, try, ◌>>=◌, ◌>>◌}
use portal_conductor.Http.{Http, Url, QueryValue, Request, get, basic}
use portal_conductor.Terrain.{Client, Memory, Time, after_less}

-- `refreshBuffer`: 60 seconds.
abbrev pub refresh_buffer : ℕ
refresh_buffer = 60_000_000_000

-- The zero `time.Time`: the first of January of the year 1.
abbrev pub zero_time : Time
zero_time = negsuc 62_135_596_799_999_999_999

-- `time.Unix(s, 0)`
abbrev unix : ℤ → Time
unix (pos s) = pos (s * 1_000_000_000)
unix (negsuc s) = negsuc (suc s * 1_000_000_000 - 1)

abbrev expiry_of : Option ℤ → Time
expiry_of (some s) = unix s
expiry_of none = zero_time

-- `TokenExpiry`: a claim `exp` that is missing counts as 0.
unfoldable pub token_expiry : (String → Option Json) → String → Time
unfolding overlay_field int_value
token_expiry claims token = elim (claims token) [
  | some (object ms) ↦ expiry_of (overlay_field int_value "exp" ms (pos 0))
  | some null ↦ unix (pos 0)
  | _ ↦ zero_time
]

module _ {W : Type 0} (H : Http W) (M : Memory W) (c : Client) where
  abbrev pub api_url : List String → List (String × QueryValue) → Url
  api_url parts query = record { base = c.base_url; elements = parts; query = query }

  -- An error of the transport becomes a `RequestError`.
  abbrev pub sent : Request → Result HttpResponse → Result HttpResponse
  sent req (ok resp) = ok resp
  sent req (err e) = err (request_error (H.url_text req.url) e)

  abbrev pub checked : HttpResponse → Result HttpResponse
  checked resp = elim (check_response H.limited resp) [ none ↦ ok resp | some e ↦ err e ]

  -- `json.NewDecoder(resp.Body).Decode(out)`, where the body is no JSON.
  abbrev pub json_of : Url → HttpResponse → Result Json
  json_of url resp = elim resp.json [
    | some j ↦ ok j
    | none ↦ err (message ("decoding response from " <> H.url_text url))
  ]

  -- `doJSON`, where the response is decoded.
  unfoldable pub do_json : Request → Call W Json
  do_json req = do
    r ← try (H.send req)
    resp ← lift (sent req r)
    resp' ← lift (checked resp)
    lift (json_of req.url resp')

  abbrev token_request : Request
  token_request = record {
    method = get;
    url = api_url ("token" ∷ "keycloak" ∷ []) [];
    authorization = basic c.username c.password;
    payload = none;
  }

  abbrev token_of_members : Option String → Result String
  token_of_members (some s) = ok s
  token_of_members none = err (message "decoding response: the token is no text")

  -- The field `access_token` of the body.
  abbrev token_of : Json → Result String
  token_of (object ms) = token_of_members (overlay_field string_value "access_token" ms "")
  token_of null = ok ""
  token_of _ = err (message "decoding response: the body is no object")

  unfoldable pub get_keycloak_token : Call W String
  get_keycloak_token = do j ← do_json token_request; lift (token_of j)

  -- The test of `accessToken`.
  unfoldable pub needs_refresh : Bool → W → Bool
  needs_refresh force w =
      force || (M.token w == "") || after_less (M.now w) (M.expiry w) refresh_buffer

  abbrev pub reads_needs : Bool → W → Bool × W
  reads_needs force w = (needs_refresh force w, w)

  abbrev pub reads_token : W → String × W
  reads_token w = (M.token w, w)

  abbrev pub stores : String → W → Done × W
  stores token w = (tt, M.set_token token (token_expiry M.claims token) w)

  unfoldable pub refresh : Call W String
  refresh = do token ← get_keycloak_token; observe (stores token); observe reads_token

  -- `accessToken`, under the lock `c.mu`.
  unfoldable pub access_token : Bool → Call W String
  access_token force = do
    stale ← observe (reads_needs force)
    if stale then refresh else observe reads_token
