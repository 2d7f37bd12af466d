-- ===== src/Api/Auth/Guard.antt =====
-- When a protected handler runs.
use portal_conductor.Base.{
  String, ◌==◌, ◌≡◌, refl, Bool, true, false, not, ◌&&◌, ◌||◌, Option, none, some, if◌then◌else◌,
}
use portal_conductor.Config.{Config}
use portal_conductor.Api.{Request, Response, Handler}
use portal_conductor.Api.Errors.{handle}
use portal_conductor.Api.Auth.{authenticate, protected, guarded}

-- Who is let in: anybody without authentication, and else who sends the configured pair, none of
-- which is empty.
abbrev pub is_admitted : Config → Option (String × String) → Bool
is_admitted cfg none = not cfg.auth.enabled
is_admitted cfg (some (username, password)) =
    not cfg.auth.enabled
    || not (cfg.auth.username == "")
      && not (cfg.auth.password == "")
      && (username == cfg.auth.username)
      && (password == cfg.auth.password)

-- Which requests reach the handler, and what becomes of the others: the status 401, without an
-- effect on the world.
abbrev pub Decided : {W : Type 0} → Handler W → Request → W → Bool → Response × W → Type 0
Decided fn r w true answer = answer ≡ handle fn r w
Decided fn r w false answer = (answer.0.status ≡ 401) × (answer.1 ≡ w)

-- The tests of a pair of credentials, by their values.
by_tests :
    {W : Type 0} (fn : Handler W) (r : Request) (w : W) (denied : Response)
    → denied.status ≡ 401
    → (on no_name no_password same_name same_password : Bool)
    → Decided fn r w (not on || not no_name && not no_password && same_name && same_password) (
        if on
        then (if (if no_name || no_password then false else same_name && same_password)
            then handle fn r w
            else (denied, w))
        else handle fn r w)
by_tests fn r w denied h false _ _ _ _ = refl
by_tests fn r w denied h true true _ _ _ = (h, refl)
by_tests fn r w denied h true false true _ _ = (h, refl)
by_tests fn r w denied h true false false false _ = (h, refl)
by_tests fn r w denied h true false false true false = (h, refl)
by_tests fn r w denied h true false false true true = refl

-- A protected handler runs for exactly the requests that are let in; any other is answered with the
-- status 401 and changes nothing.
pub protected-Decided :
    {W : Type 0} (cfg : Config) (quoted : String → String) (fn : Handler W) (r : Request) (w : W)
    → Decided fn r w (is_admitted cfg r.credentials) (protected cfg quoted fn r w)
unfolding protected authenticate
protected-Decided cfg quoted fn r w = by_credentials r.credentials
  where
    by_credentials :
        (o : Option (String × String))
        → Decided fn r w
            (is_admitted cfg o)
            (if cfg.auth.enabled then guarded cfg quoted o (handle fn r) w else handle fn r w)
    by_credentials none = undecided cfg.auth.enabled
      where
        undecided :
            (on : Bool)
            → Decided fn r w
                (not on)
                (if on then guarded cfg quoted none (handle fn r) w else handle fn r w)
        undecided true = (refl, refl)
        undecided false = refl
    by_credentials (some (username, password)) =
        by_tests fn r w _ refl cfg.auth.enabled (cfg.auth.username == "") (cfg.auth.password == "")
          (username == cfg.auth.username) (password == cfg.auth.password)
