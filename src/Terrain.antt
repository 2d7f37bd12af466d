-- ===== src/Terrain.antt =====
-- The Terrain client (terrain/terrain.go): its record, its cached token and the clock.
pub mod Token
pub mod Calls
pub mod Frame
pub mod Exchanges
use portal_conductor.Base.{ℕ, String, Bool, ◌+◌, suc, ltb, ◌≡◌, Option}
use portal_conductor.Base.Int.{ℤ, pos, negsuc}
use portal_conductor.Json.{Json}

-- `Client`, but for the cached token and its expiry.
pub record Client : Type 0 where
  pub base_url : String
  pub username : String
  pub password : String

-- A point in time: nanoseconds since 1970.
abbrev pub Time : Type 0
Time = ℤ

abbrev positive : ℤ → ℕ
positive (pos n) = n
positive (negsuc n) = 0

abbrev negative : ℤ → ℕ
negative (pos n) = 0
negative (negsuc n) = suc n

-- `t.After(u.Add(-d))`, which is `u < t + d`.
abbrev pub after_less : Time → Time → ℕ → Bool
after_less t u d = ltb (positive u + negative t) (positive t + d + negative u)

-- The fields `token` and `tokenExpiry` in the memory of the process, the clock, and the claims of a
-- JWT: of a text of three parts, the middle one, decoded from base64 and JSON.
pub record Memory (W : Type 0) : Type 0 where
  pub token : W → String
  pub expiry : W → Time
  pub set_token : String → Time → W → W
  pub now : W → Time
  pub claims : String → Option Json
  pub token-set_token : (s : String) (t : Time) (w : W) → token (set_token s t w) ≡ s
  pub expiry-set_token : (s : String) (t : Time) (w : W) → expiry (set_token s t w) ≡ t
