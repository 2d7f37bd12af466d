-- ===== src/Terrain/Token/Cache.antt =====
-- The cached token.
use portal_conductor.Base.{
  ℕ, ◌+◌, ◌≤◌, ◌<◌, ◌==◌, ◌≡◌, refl, true, false, ◌⊎◌, inl, inr, Bool-cases, ltb, arith,
}
use portal_conductor.Base.Int.{pos}
use portal_conductor.External.Effect.{ok, observe, ◌>>=◌}
use portal_conductor.Http.{Http}
use portal_conductor.Terrain.{Client, Memory}
use portal_conductor.Terrain.Token.{needs_refresh, refresh, access_token}

module _ {W : Type 0} (H : Http W) (M : Memory W) (c : Client) where
  -- What `accessToken` does where it is not forced, by the nanoseconds of the clock and of the expiry: a
  -- token that lives for another 60 seconds is taken from the cache and nothing is done; without a token
  -- or with less time, a fresh one is asked for.
  abbrev pub ByAge : ℕ → ℕ → W → Type 0
  ByAge n e w =
      (((M.token w == "") ≡ false)
        × (n + 60_000_000_000 ≤ e)
        × (access_token H M c false w ≡ (ok (M.token w), w)))
      ⊎ ((((M.token w == "") ≡ true) ⊎ (e < n + 60_000_000_000))
          × (access_token H M c false w ≡ refresh H M c w))

  -- `accessToken`, where it is not forced and the clock and the expiry are not before 1970: a token that
  -- lives for another 60 seconds is taken from the cache and the world stays as it is; where there is
  -- no token or it lives for less, a fresh one is asked for.
  pub access_token-ByAge : (n e : ℕ) (w : W) → M.now w ≡ pos n → M.expiry w ≡ pos e → ByAge n e w
  unfolding access_token needs_refresh ◌>>=◌ observe
  access_token-ByAge n e w now expiry = elim (Bool-cases (M.token w == "")) [
    | inl k ↦ inr (inl k, rw k refl)
    | inr k ↦ elim (Bool-cases (ltb (e + 0) (n + 60_000_000_000 + 0))) [
      | inl l ↦ inr (inr (ground arith), rw (k, now, expiry, l) refl)
      | inr l ↦ inl (k, ground arith, rw (k, now, expiry, l) refl)
    ]
  ]
