-- ===== src/Api/Router/Disjoint.antt =====
-- The patterns of the routes, two by two.
use Prim.{⊥}
use portal_conductor.Base.{
  ℕ, ◌+◌, ◌≤◌, String, ◌≡◌, refl, Bool, true, false, not, ◌&&◌, List, [], ◌∷◌, and_first,
  and_second, inl, inr, Bool-cases, if◌then◌else◌, arith,
}
use portal_conductor.Api.Router.{Pattern, UrlPath, Route, fits}
use portal_conductor.Api.Router.Overlap.{meet, meet_lem, is_subtree, endings_meet}
use portal_conductor.Api.Router.Table.{Handlers, api_routes}

module _ {W : Type 0} where
  apart_from : Pattern → List (Route W) → Bool
  apart_from p [] = true
  apart_from p (r ∷ rs) = not (meet p r.pattern) && apart_from p rs

  all_apart : List (Route W) → Bool
  unfolding apart_from
  all_apart [] = true
  all_apart (r ∷ rs) = apart_from r.pattern rs && all_apart rs

  -- How many of the routes a request fits.
  unfoldable pub fitting : List (Route W) → String → UrlPath → ℕ
  fitting [] m path = 0
  fitting (r ∷ rs) m path = (if fits r.pattern m path then 1 else 0) + fitting rs m path

  none_fits :
      (p : Pattern) (rs : List (Route W)) (m : String) (path : UrlPath)
      → fits p m path ≡ true
      → apart_from p rs ≡ true
      → fitting rs m path ≡ 0
  unfolding fitting apart_from
  none_fits p [] m path h a = refl
  none_fits p (r ∷ rs) m path h a = elim (Bool-cases (fits r.pattern m path)) [
    | inl k ↦ absurd (clash (meet p r.pattern) (meet_lem p r.pattern m path h k) (and_first _ _ a))
    | inr k ↦
        rw k (omega (arith, none_fits p rs m path h (and_second (not (meet p r.pattern)) _ a)))
  ]
    where
      clash : (b : Bool) → b ≡ true → not b ≡ true → ⊥
      clash true e n = cc
      clash false e n = cc

  fitting-le :
      (rs : List (Route W)) (m : String) (path : UrlPath)
      → all_apart rs ≡ true
      → fitting rs m path ≤ 1
  unfolding fitting all_apart
  fitting-le [] m path a = omega arith
  fitting-le (r ∷ rs) m path a = elim (Bool-cases (fits r.pattern m path)) [
    | inl k ↦ rw k (omega (arith, none_fits r.pattern rs m path k (and_first _ _ a)))
    | inr k ↦ rw k (omega (arith, fitting-le rs m path (and_second (apart_from r.pattern rs) _ a)))
  ]

  api_routes_apart : (h : Handlers W) → all_apart (api_routes h) ≡ true
  unfolding api_routes all_apart meet is_subtree endings_meet
  api_routes_apart h = refl

  -- But for the last route, which is for every request, a request fits one route at most: no two of the
  -- patterns conflict, and the order in which the router looks at them does not count.
  pub fitting-api_routes :
      (h : Handlers W) (m : String) (path : UrlPath) → fitting (api_routes h) m path ≤ 1
  fitting-api_routes h m path = fitting-le (api_routes h) m path (api_routes_apart h)
