-- ===== src/Api/Async/AppId.antt =====
-- The identifier of the app after it has been found.
use portal_conductor.Base.{String, ◌==◌, ◌≡◌, refl, Bool, false}
use portal_conductor.Config.{Config}
use portal_conductor.External.Effect.{Call, ok, observe, pure, ◌>>=◌}
use portal_conductor.External.Effect.Triple.{
  Triple, Triple-bind, Triple-if, Triple-pure, Triple-fail, Triple-ok, Triple-intro,
}
use portal_conductor.Http.{Http}
use portal_conductor.Json.{Members}
use portal_conductor.Terrain
use portal_conductor.Terrain.{Client}
use portal_conductor.Terrain.Calls.{get_app_id_by_name}
use portal_conductor.Api.Async.{AppMemory, resolve_deletion_app_id}
use portal_conductor.Api.Async.Parameter.{Floats}

module _ {W : Type 0} (H : Http W) (M : Terrain.Memory W) (A : AppMemory W) (c : Client)
    (cfg : Config) (floats : Floats) (equal_fold : String → String → Bool)
    (shown : Members → String) where
  -- The identifier is not empty, and the process remembers it.
  abbrev pub IsKnown : String → W → Type 0
  IsKnown id w = ((id == "") ≡ false) × (A.app_id w ≡ id)

  abbrev Anything : {A : Type 0} → A → W → Type 0
  Anything a w = Unit {0}

  Triple-any : {B : Type 0} {P : W → Type 0} (m : Call W B) → Triple P m Anything Anything
  Triple-any m = Triple-intro m (λ w h a e. tt) (λ w h x e. tt)

  Triple-resolve :
      Triple
        (Anything tt)
        (resolve_deletion_app_id H M A c cfg floats equal_fold shown)
        IsKnown
        Anything
  unfolding resolve_deletion_app_id observe
  Triple-resolve =
      Triple-bind (λ id w. A.app_id w ≡ id) _ _ (record { run = λ w h. refl })
        λ cached.
          Triple-if (cached == "") _ _
            (λ e.
              Triple-if (cfg.terrain.user_deletion_app_name == "") _ _
                (λ n. Triple-fail _ (λ w h. tt))
                (λ n.
                  Triple-bind Anything
                    (get_app_id_by_name H M c equal_fold cfg.terrain.system_id
                      cfg.terrain.user_deletion_app_name)
                    _ (Triple-any _)
                    λ id.
                      Triple-if (id == "") _ _ (λ z. Triple-fail _ (λ w h. tt))
                        (λ z. record { run = λ w h. (z, A.app_id-set_app_id id w) })))
            (λ e. Triple-pure cached (λ w h. (e, h)))

  known_again :
      (id : String) (w : W)
      → IsKnown id w
      → resolve_deletion_app_id H M A c cfg floats equal_fold shown w ≡ (ok id, w)
  unfolding resolve_deletion_app_id observe ◌>>=◌ pure
  known_again id w (e, k) = rw (k, e) refl

  -- An identifier of the app that has been returned once is not empty and is remembered, so that the
  -- next request gets the same one without a call of Terrain and without a change of the world.
  pub resolve_deletion_app_id-known :
      (w : W) (id : String)
      → (resolve_deletion_app_id H M A c cfg floats equal_fold shown w).0 ≡ ok id
      → ((id == "") ≡ false)
        × (resolve_deletion_app_id H M A c cfg floats equal_fold shown
              (resolve_deletion_app_id H M A c cfg floats equal_fold shown w).1
            ≡ (ok id, (resolve_deletion_app_id H M A c cfg floats equal_fold shown w).1))
  resolve_deletion_app_id-known w id e =
      let k = Triple-ok Triple-resolve w tt e in
      (k.0, known_again id (resolve_deletion_app_id H M A c cfg floats equal_fold shown w).1 k)
