-- ===== src/Api/Router.antt =====
-- api/server.go: `http.ServeMux` as the router uses it, and what is behind a pattern.
pub mod Table
pub mod Guarded
pub mod Overlap
pub mod Disjoint
use portal_conductor.Base.{
  String, ◌==◌, Bool, true, false, not, ◌&&◌, ◌||◌, Option, none, some, List, [], ◌∷◌, is_empty,
  map_value, if◌then◌else◌,
}
use portal_conductor.Config.{Config}
use portal_conductor.External.{text}
use portal_conductor.External.Effect.{pure}
use portal_conductor.Api.{RequestBody, Request, Response, Handler, greeting}
use portal_conductor.Api.Errors.{handle, write_json, write_detail}
use portal_conductor.Api.Auth.{protected}

pub data Segment : Type 0 where
  lit : String → Segment
  wildcard : String → Segment

-- How a pattern ends: in its last segment, in `/{$}`, or in a slash, behind which anything may follow.
pub data Ending : Type 0 where
  plain slash subtree : Ending

-- A pattern; without a method it is for every one.
pub record Pattern : Type 0 where
  pub method : Option String
  pub segments : List Segment
  pub ending : Ending

-- A path: the elements between its slashes, unescaped, and whether a slash ends it. ServeMux redirects a
-- request whose path is not clean before it looks at the patterns; the paths here are clean.
pub record UrlPath : Type 0 where
  pub elements : List String
  pub slash : Bool

pub record Incoming : Type 0 where
  pub method : String
  pub path : UrlPath
  pub credentials : Option (String × String)
  pub query_value : String → String
  pub body : RequestBody

-- A pattern for `GET` is for `HEAD` too.
unfoldable pub method_fits : Option String → String → Bool
method_fits none m = true
method_fits (some p) m = p == m || (p == "GET" && m == "HEAD")

unfoldable pub ending_fits : Ending → List String → Bool → Bool
ending_fits plain rest has_slash = is_empty rest && not has_slash
ending_fits slash rest has_slash = is_empty rest && has_slash
ending_fits subtree rest has_slash = not (is_empty rest) || has_slash

unfoldable pub path_fits : List Segment → Ending → List String → Bool → Bool
unfolding ending_fits
path_fits [] end rest has_slash = ending_fits end rest has_slash
path_fits (seg ∷ segs) end [] has_slash = false
path_fits (lit s ∷ segs) end (e ∷ es) has_slash =
    let later = path_fits segs end es has_slash in if s == e then later else false
path_fits (wildcard name ∷ segs) end (e ∷ es) has_slash = path_fits segs end es has_slash

unfoldable pub fits : Pattern → String → UrlPath → Bool
unfolding method_fits path_fits
fits p m path = method_fits p.method m && path_fits p.segments p.ending path.elements path.slash

-- The wildcards of a pattern with the elements that stand in their places.
unfoldable pub captures : List Segment → List String → List (String × String)
captures (lit s ∷ segs) (e ∷ es) = captures segs es
captures (wildcard name ∷ segs) (e ∷ es) = (name, e) ∷ captures segs es
captures _ _ = []

-- `r.PathValue`.
abbrev pub or_empty : Option String → String
or_empty (some s) = s
or_empty none = ""

abbrev pub request_of : Pattern → Incoming → Request
request_of p i = record {
  credentials = i.credentials;
  path_value = λ name. or_empty (map_value name (captures p.segments i.path.elements));
  query_value = i.query_value;
  body = i.body;
}

-- What is registered for a pattern: a handler under `handle` or under `protected`, the pages of the
-- documentation, or `notFound`.
pub data Action (W : Type 0) : Type 0 where
  unguarded guarded : Handler W → Action W
  documentation missing : Action W

pub record Route (W : Type 0) : Type 0 where
  pub pattern : Pattern
  pub action : Action W

-- `greeting` and `notFound`.
abbrev pub greeting_page : {W : Type 0} → Handler W
greeting_page r = pure (write_json 200 greeting)

abbrev pub not_found : Response
not_found = write_detail 404 (text "Not Found")

-- Whether a match of a path takes in nothing behind a final slash of the pattern.
abbrev is_exact_ending : Ending → Pattern → UrlPath → Bool
is_exact_ending plain p path = true
is_exact_ending slash p path = true
is_exact_ending subtree p path = path_fits p.segments slash path.elements path.slash

abbrev pub with_slash : UrlPath → UrlPath
with_slash path = record { elements = path.elements; slash = true }

module _ {W : Type 0} where
  -- The patterns of the table do not overlap but for the last one, which everything else matches, so
  -- that the most specific one is the first one that fits.
  unfoldable pub first_match : List (Route W) → String → UrlPath → Option (Route W)
  unfolding fits
  first_match [] m path = none
  first_match (r ∷ rs) m path =
      let later = first_match rs m path in if fits r.pattern m path then some r else later

  abbrev pub is_exact : Option (Route W) → UrlPath → Bool
  is_exact none path = false
  is_exact (some r) path = is_exact_ending r.pattern.ending r.pattern path

  -- Whether ServeMux answers with a redirection to the path with a slash at its end.
  unfoldable pub redirects : List (Route W) → String → UrlPath → Bool
  redirects rs m path =
      not (is_exact (first_match rs m path) path)
      && not path.slash
      && is_exact (first_match rs m (with_slash path)) (with_slash path)

  -- `quoted` is the `%q` of the realm; `docs` is the handler of http-swagger, and `moved` ServeMux's
  -- redirection.
  module _ (cfg : Config) (quoted : String → String) (docs : Incoming → W → Response × W)
      (moved : Response) where
    unfoldable pub perform : Action W → Pattern → Incoming → W → Response × W
    perform (unguarded fn) p i w = handle fn (request_of p i) w
    perform (guarded fn) p i w = protected cfg quoted fn (request_of p i) w
    perform documentation p i w = docs i w
    perform missing p i w = (not_found, w)

    abbrev pub perform_match : Option (Route W) → Incoming → W → Response × W
    perform_match (some r) i w = perform r.action r.pattern i w
    perform_match none i w = (not_found, w)

    -- `ServeHTTP` of the router, without the line in the log.
    unfoldable pub serve_http : List (Route W) → Incoming → W → Response × W
    serve_http rs i w =
        if redirects rs i.method i.path
        then (moved, w)
        else perform_match (first_match rs i.method i.path) i w
