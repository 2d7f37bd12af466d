-- ===== src/Terrain/Frame.antt =====
-- What the calls of Terrain leave alone.
use portal_conductor.Base.{String, Bool, Option}
use portal_conductor.Base.Int.{ℤ}
use portal_conductor.Json.{Json}
use portal_conductor.External.Effect.Keeps.{Keeps, keeps_rules}
use portal_conductor.Http.{Http, Request, Method, Url}
use portal_conductor.Terrain.{Client, Memory, Time}
use portal_conductor.Terrain.Token.{do_json, get_keycloak_token, refresh, access_token}
use portal_conductor.Terrain.Calls.{attempt, attempt_twice, do_authed, set_concurrent_job_limits}

-- Neither a request over HTTP nor the token in the memory touches what `P` is about.
pub record CallsKeep {W : Type 0} (H : Http W) (M : Memory W) (P : W → Type 0) : Type 0 where
  pub send_keeps : (r : Request) → Keeps P (H.send r)
  pub set_token_keeps : (s : String) (t : Time) (w : W) → P w → P (M.set_token s t w)

module _ {W : Type 0} (H : Http W) (M : Memory W) (c : Client) {P : W → Type 0}
    (K : CallsKeep H M P) where
  Keeps-get_keycloak_token : Keeps P (get_keycloak_token H M c)
  unfolding get_keycloak_token do_json
  Keeps-get_keycloak_token = search (keeps_rules, K.send_keeps) depth 9

  Keeps-refresh : Keeps P (refresh H M c)
  unfolding refresh
  Keeps-refresh = search (keeps_rules, Keeps-get_keycloak_token, K.set_token_keeps) depth 9

  Keeps-access_token : (force : Bool) → Keeps P (access_token H M c force)
  unfolding access_token
  Keeps-access_token force = search (keeps_rules, Keeps-refresh) depth 9

  Keeps-attempt :
      (method : Method) (url : Url) (payload : Option Json) (force : Bool)
      → Keeps P (attempt H M c method url payload force)
  unfolding attempt
  Keeps-attempt method url payload force =
      search (keeps_rules, Keeps-access_token, K.send_keeps) depth 9

  Keeps-do_authed :
      (method : Method) (url : Url) (payload : Option Json)
      → Keeps P (do_authed H M c method url payload)
  unfolding do_authed attempt_twice
  Keeps-do_authed method url payload = search (keeps_rules, Keeps-attempt) depth 9

  pub Keeps-set_concurrent_job_limits :
      (username : String) (limit : ℤ) → Keeps P (set_concurrent_job_limits H M c username limit)
  unfolding set_concurrent_job_limits
  Keeps-set_concurrent_job_limits username limit = Keeps-do_authed _ _ _
