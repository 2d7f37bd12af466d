-- ===== src/Api/Router/Guarded.antt =====
-- Requests without credentials.
use mathlib.Core.Path.{subst}
use portal_conductor.Base.{
  String, ◌≡◌, refl, ap, false, Option, none, some, List, [], ◌∷◌, inl, inr, All, Bool-cases,
}
use portal_conductor.Config.{Config}
use portal_conductor.External.Effect.{pure}
use portal_conductor.Api.{Response, greeting}
use portal_conductor.Api.Errors.{handle, response_of, write_json}
use portal_conductor.Api.Auth.{protected}
use portal_conductor.Api.Auth.Guard.{is_admitted, Decided, protected-Decided}
use portal_conductor.Api.Router.{
  Pattern, Incoming, Action, unguarded, guarded, documentation, missing, Route, greeting_page,
  not_found, request_of, first_match, fits, redirects, perform, perform_match, serve_http,
}
use portal_conductor.Api.Router.Table.{Handlers, routes}

module _ {W : Type 0} where
  -- The one handler that runs without credentials is the greeting.
  abbrev pub IsCovered : Action W → Type 0
  IsCovered (unguarded fn) = fn ≡ greeting_page
  IsCovered _ = Unit

  routes-IsCovered : (h : Handlers W) → All (λ r. IsCovered r.action) (routes h)
  unfolding routes
  routes-IsCovered h = (refl, search)

  first_match-IsCovered :
      (rs : List (Route W)) (m : String) (i : Incoming) (r : Route W)
      → All (λ r. IsCovered r.action) rs
      → first_match rs m i.path ≡ some r
      → IsCovered r.action
  unfolding first_match
  first_match-IsCovered [] m i r c e = cc
  first_match-IsCovered (q ∷ rs) m i r c e = elim (Bool-cases (fits q.pattern m i.path)) [
    | inl f ↦ subst (λ r. IsCovered r.action) (same (rw f at e)) c.0
    | inr f ↦ first_match-IsCovered rs m i r c.1 (rw f at e)
  ]
    where
      same : Path (Option (Route W)) (some q) (some r) → q ≡ r
      same k = cc

module _ {W : Type 0} (cfg : Config) (quoted : String → String) (docs : Incoming → W → Response × W)
    (moved : Response) where
  -- The answers that anybody gets.
  pub data IsPublic (i : Incoming) (w : W) : Response × W → Type 0 where
    greeted : {a : Response × W} → a ≡ (write_json 200 greeting, w) → IsPublic i w a
    nothing_there : {a : Response × W} → a ≡ (not_found, w) → IsPublic i w a
    redirected : {a : Response × W} → a ≡ (moved, w) → IsPublic i w a
    documented : {a : Response × W} → a ≡ docs i w → IsPublic i w a
    refused : {a : Response × W} → a.0.status ≡ 401 → a.1 ≡ w → IsPublic i w a

  performed :
      (action : Action W) (p : Pattern) (i : Incoming) (w : W)
      → is_admitted cfg i.credentials ≡ false
      → IsCovered action
      → IsPublic i w (perform cfg quoted docs moved action p i w)
  unfolding perform handle response_of pure
  performed (unguarded fn) p i w a c = greeted (ap (λ f. handle f (request_of p i) w) c)
  performed (guarded fn) p i w a c =
      let d = protected-Decided cfg quoted fn (request_of p i) w in
      let (h, k) =
        subst (λ b. Decided fn (request_of p i) w b (protected cfg quoted fn (request_of p i) w)) a
          d in
      refused h k
  performed documentation p i w a c = documented refl
  performed missing p i w a c = nothing_there refl

  by_match :
      (rs : List (Route W)) (i : Incoming) (w : W) (o : Option (Route W))
      → is_admitted cfg i.credentials ≡ false
      → All (λ r. IsCovered r.action) rs
      → first_match rs i.method i.path ≡ o
      → IsPublic i w (perform_match cfg quoted docs moved o i w)
  by_match rs i w none a c e = nothing_there refl
  by_match rs i w (some r) a c e =
      performed r.action r.pattern i w a (first_match-IsCovered rs i.method i r c e)

  -- A request without the configured credentials reaches no handler but the greeting: it gets the
  -- greeting, the page `notFound`, a redirection, a page of the documentation or the status 401, and
  -- but for what the documentation's own handler may do, the world stays as it was.
  pub serve_http-IsPublic :
      (h : Handlers W) (i : Incoming) (w : W)
      → is_admitted cfg i.credentials ≡ false
      → IsPublic i w (serve_http cfg quoted docs moved (routes h) i w)
  unfolding serve_http
  serve_http-IsPublic h i w a = elim (Bool-cases (redirects (routes h) i.method i.path)) [
    | inl e ↦ rw e (redirected refl)
    | inr e ↦ rw e (by_match (routes h) i w _ a (routes-IsCovered h) refl)
  ]
