-- ===== src/Startup/Listeners.antt =====
-- What the listeners serve.
use Prim.{⊥}
use mathlib.Core.Path.{subst, sym}
use portal_conductor.Base.{
  String, ◌≡◌, refl, Bool, true, false, Option, none, some, inl, inr, Bool-cases, if◌then◌else◌,
}
use portal_conductor.Base.SortedSet.Laws.{Among}
use portal_conductor.Config.{Config}
use portal_conductor.External.Effect.{pure}
use portal_conductor.Api.{Response, greeting}
use portal_conductor.Api.Errors.{handle, response_of, write_json}
use portal_conductor.Api.Router.{
  Incoming, not_found, first_match, redirects, fits, perform, perform_match, serve_http,
}
use portal_conductor.Api.Router.Table.{
  Handlers, health_pattern, any_pattern, health_routes, health_route, last_route,
}
use portal_conductor.Startup.{Listener, Flags, ssl_ready, serve, listeners, answer}

-- What a listener for health checks answers: the world stays as it is.
pub data IsHealth {W : Type 0} (moved : Response) (w : W) : Response × W → Type 0 where
  greeted : {a : Response × W} → a ≡ (write_json 200 greeting, w) → IsHealth moved w a
  nothing_there : {a : Response × W} → a ≡ (not_found, w) → IsHealth moved w a
  redirected : {a : Response × W} → a ≡ (moved, w) → IsHealth moved w a

module _ {W : Type 0} (cfg : Config) (quoted : String → String) (docs : Incoming → W → Response × W)
    (moved : Response) (h : Handlers W) where
  IsHealth-match :
      (i : Incoming) (w : W) (a b : Bool)
      → IsHealth moved w (
          perform_match cfg quoted docs moved
            (if a then some health_route else if b then some last_route else none)
            i
            w)
  unfolding perform handle response_of pure
  IsHealth-match i w true b = greeted refl
  IsHealth-match i w false true = nothing_there refl
  IsHealth-match i w false false = nothing_there refl

  health_routes-IsHealth :
      (i : Incoming) (w : W) → IsHealth moved w (serve_http cfg quoted docs moved health_routes i w)
  unfolding serve_http health_routes first_match
  health_routes-IsHealth i w = elim (Bool-cases (redirects {W = W} health_routes i.method i.path)) [
    | inl e ↦ rw e (redirected refl)
    | inr e ↦ rw e (
        IsHealth-match i w (fits health_pattern i.method i.path) (fits any_pattern i.method i.path))
  ]

  -- Where the certificates are there, a listener without one answers every request, with credentials or
  -- without them, by the greeting, the page `notFound` or a redirection: it does nothing, and never
  -- serves the API in plain text.
  pub answer-IsHealth :
      (stat : String → Bool) (flags : Flags) (l : Listener) (i : Incoming) (w : W)
      → ssl_ready stat cfg ≡ true
      → Among l (listeners stat cfg flags)
      → l.certificate ≡ none
      → IsHealth moved w (answer cfg quoted docs moved h l i w)
  unfolding answer listeners serve
  answer-IsHealth stat flags l i w ready m plain = elim (rw ready at m) [
    | inl e ↦
        subst (λ l. IsHealth moved w (answer cfg quoted docs moved h l i w)) (sym e)
          (health_routes-IsHealth i w)
    | inr (inl e) ↦ absurd (no_certificate (rw e at plain))
    | inr (inr n) ↦ absurd n
  ]
    where
      no_certificate :
          ◌≡◌ {A = Option (String × String)} (some (cfg.ssl.cert_file, cfg.ssl.key_file)) none → ⊥
      no_certificate k = cc
