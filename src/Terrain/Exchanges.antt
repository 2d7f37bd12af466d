-- ===== src/Terrain/Exchanges.antt =====
-- How often the calls of Terrain use the HTTP client. `http.Client.Do` follows redirections by itself,
-- within one call.
use portal_conductor.Base.{ℕ, suc, ◌≤◌, String, Bool, true, false, Option, arith}
use portal_conductor.Json.{Json}
use portal_conductor.External.Effect.Costs.{
  Costs, Costs-pure, Costs-lift, Costs-try, Costs-observe, Costs-if, Costs-weaken, Costs-bind,
}
use portal_conductor.Http.{Http, Request, Method, Url}
use portal_conductor.Terrain.{Client, Memory, Time}
use portal_conductor.Terrain.Token.{do_json, get_keycloak_token, refresh, access_token}
use portal_conductor.Terrain.Calls.{
  attempt, attempt_twice, do_authed_json, search_apps, get_app_id_by_name,
}

-- A world with the number of calls of `http.Client.Do`.
abbrev pub Counted : Type 0 → Type 0
Counted W = W × ℕ

abbrev pub calls : {W : Type 0} → Counted W → ℕ
calls w = w.1

module _ {W : Type 0} where
  abbrev pub counted : Http W → Http (Counted W)
  counted H = record {
    send = λ r w. ((H.send r w.0).0, ((H.send r w.0).1, suc w.1));
    url_text = H.url_text;
    limited = H.limited;
  }

  abbrev pub beside_count : Memory W → Memory (Counted W)
  beside_count M = record {
    token = λ w. M.token w.0;
    expiry = λ w. M.expiry w.0;
    set_token = λ s t w. (M.set_token s t w.0, w.1);
    now = λ w. M.now w.0;
    claims = M.claims;
    token-set_token = λ s t w. M.token-set_token s t w.0;
    expiry-set_token = λ s t w. M.expiry-set_token s t w.0;
  }

-- A count to which each call of `Do` adds one at most, and the token in memory nothing.
pub record Counts {W : Type 0} (H : Http W) (M : Memory W) (count : W → ℕ) : Type 0 where
  pub one_each : (r : Request) → Costs count 1 (H.send r)
  pub token_free : (s : String) (t : Time) (w : W) → count (M.set_token s t w) ≤ count w

pub counted-Counts :
    {W : Type 0} (H : Http W) (M : Memory W) → Counts (counted H) (beside_count M) calls
counted-Counts H M = record {
  one_each = λ r. record { bound = λ w. omega arith };
  token_free = λ s t w. omega arith;
}

module _ {W : Type 0} (H : Http W) (M : Memory W) (c : Client) (count : W → ℕ)
    (K : Counts H M count) where
  Costs-get_keycloak_token : Costs count 1 (get_keycloak_token H M c)
  unfolding get_keycloak_token do_json
  Costs-get_keycloak_token =
      Costs-bind count
        (Costs-bind count (Costs-try count (K.one_each _)) λ r.
          Costs-bind count (Costs-lift count _)
            λ resp. Costs-bind count (Costs-lift count _) λ resp'. Costs-lift count _)
        (λ j. Costs-lift count _)

  Costs-refresh : Costs count 1 (refresh H M c)
  unfolding refresh
  Costs-refresh = Costs-bind count Costs-get_keycloak_token λ token.
      Costs-bind count (Costs-observe count _ (λ w. K.token_free token _ w))
        λ stored. Costs-observe count _ (λ w. omega arith)

  Costs-access_token : (force : Bool) → Costs count 1 (access_token H M c force)
  unfolding access_token
  Costs-access_token force = Costs-bind count (Costs-observe count _ (λ w. omega arith)) λ stale.
      Costs-if count stale Costs-refresh
        (Costs-weaken count (omega arith) (Costs-observe count _ (λ w. omega arith)))

  Costs-attempt :
      (method : Method) (url : Url) (payload : Option Json) (force : Bool)
      → Costs count 2 (attempt H M c method url payload force)
  unfolding attempt
  Costs-attempt method url payload force =
      Costs-bind count (Costs-access_token force)
        λ token. Costs-bind count (Costs-try count (K.one_each _)) λ r. Costs-lift count _

  Costs-attempt_twice :
      (method : Method) (url : Url) (payload : Option Json)
      → Costs count 4 (attempt_twice H M c method url payload)
  unfolding attempt_twice
  Costs-attempt_twice method url payload =
      Costs-bind count (Costs-attempt method url payload false) λ resp.
        Costs-if count _ (Costs-attempt method url payload true)
          (Costs-weaken count (omega arith) (Costs-pure count resp))

  pub Costs-do_authed_json :
      (method : Method) (url : Url) (payload : Option Json)
      → Costs count 4 (do_authed_json H M c method url payload)
  unfolding do_authed_json
  Costs-do_authed_json method url payload =
      Costs-bind count (Costs-attempt_twice method url payload) λ resp.
        Costs-bind count (Costs-lift count _)
          λ resp'. Costs-bind count (Costs-lift count _) λ j. Costs-lift count _

  pub Costs-get_app_id_by_name :
      (equal_fold : String → String → Bool) (system_id app_name : String)
      → Costs count 4 (get_app_id_by_name H M c equal_fold system_id app_name)
  unfolding get_app_id_by_name search_apps
  Costs-get_app_id_by_name equal_fold system_id app_name =
      Costs-bind count (Costs-do_authed_json _ _ _) λ results. Costs-pure count _
