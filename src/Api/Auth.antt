-- ===== src/Api/Auth.antt =====
-- HTTP Basic authentication: `authenticate` and `protected`.
pub mod Guard
use portal_conductor.Base.{
  String, ◌<>◌, ◌==◌, Bool, true, false, ◌&&◌, ◌||◌, Option, none, some, if◌then◌else◌,
}
use portal_conductor.Config.{Config}
use portal_conductor.External.{text}
use portal_conductor.Api.{Request, Response, Handler}
use portal_conductor.Api.Errors.{handle, write_detail}

module _ (cfg : Config) where
  unfoldable pub authenticate : String → String → Bool
  authenticate username password =
      if (cfg.auth.username == "") || (cfg.auth.password == "")
      then false
      else (username == cfg.auth.username) && (password == cfg.auth.password)

  -- The 401 responses, with the header that is set before the error is returned. `quoted` is the
  -- `%q` of the realm.
  abbrev pub unauthorized : String → String → Response
  unauthorized challenge reason = record (write_detail 401 (text reason)) {
    challenge = some challenge;
  }

  abbrev pub guarded :
      {W : Type 0} (quoted : String → String)
      → Option (String × String)
      → (W → Response × W)
      → W
      → Response × W
  guarded quoted none next w = (unauthorized "Basic" "Not authenticated", w)
  guarded quoted (some (username, password)) next w =
      if authenticate username password then next w else (
        unauthorized ("Basic realm=" <> quoted cfg.auth.realm) "Incorrect username or password",
        w,
      )

  -- `protected`.
  unfoldable pub protected :
      {W : Type 0} (quoted : String → String) → Handler W → Request → W → Response × W
  protected quoted fn r w =
      if cfg.auth.enabled then guarded quoted r.credentials (handle fn r) w else handle fn r w
