-- ===== src/Api/Async/Exchanges.antt =====
-- How often the asynchronous deletion uses the HTTP client.
use portal_conductor.Base.{ℕ, ◌≤◌, String, ◌==◌, Bool, arith}
use portal_conductor.Json.{Members}
use portal_conductor.Config.{Config}
use portal_conductor.External.Effect.Costs.{
  Costs, Costs-pure, Costs-fail, Costs-lift, Costs-observe, Costs-if, Costs-weaken, Costs-bind,
}
use portal_conductor.Http.{Http}
use portal_conductor.Terrain
use portal_conductor.Terrain.{Client}
use portal_conductor.Terrain.Calls.{get_app_job_view, launch_analysis}
use portal_conductor.Terrain.Exchanges.{
  Counts, Counted, calls, counted, beside_count, counted-Counts, Costs-do_authed_json,
  Costs-get_app_id_by_name,
}
use portal_conductor.Api.{Request}
use portal_conductor.Api.Async.{
  AppMemory, ensure_async_configured, resolve_deletion_app_id, username_param_id, delete_user_async,
}
use portal_conductor.Api.Async.Parameter.{Floats}

module _ {W : Type 0} (H : Http W) (M : Terrain.Memory W) (A : AppMemory W) (c : Client)
    (cfg : Config) (floats : Floats) (equal_fold : String → String → Bool)
    (shown : Members → String) (count : W → ℕ) (K : Counts H M count)
    (free : (s : String) (w : W) → count (A.set_app_id s w) ≤ count w) where
  Costs-ensure : Costs count 0 (ensure_async_configured H M A c cfg floats equal_fold shown)
  unfolding ensure_async_configured
  Costs-ensure = Costs-if count _ (Costs-pure count tt) (Costs-fail count _)

  Costs-resolve : Costs count 4 (resolve_deletion_app_id H M A c cfg floats equal_fold shown)
  unfolding resolve_deletion_app_id
  Costs-resolve = Costs-bind count (Costs-observe count _ (λ w. omega arith)) λ cached.
      Costs-if count (cached == "")
        (Costs-if count (cfg.terrain.user_deletion_app_name == "")
          (Costs-weaken count (omega arith) (Costs-fail count _))
          (Costs-bind count (Costs-get_app_id_by_name H M c count K equal_fold _ _) λ id.
            Costs-if count (id == "") (Costs-fail count _)
              (Costs-observe count _ (λ w. free id w))))
        (Costs-weaken count (omega arith) (Costs-pure count cached))

  Costs-username_param_id :
      (system_id app_id : String)
      → Costs count 4 (username_param_id H M A c cfg floats equal_fold shown system_id app_id)
  unfolding username_param_id get_app_job_view
  Costs-username_param_id system_id app_id =
      Costs-bind count (Costs-do_authed_json H M c count K _ _ _) λ view. Costs-lift count _

  Costs-delete_user_async :
      (home : String → String) (r : Request)
      → Costs count 12 (delete_user_async H M A c cfg floats equal_fold shown home r)
  unfolding delete_user_async launch_analysis
  Costs-delete_user_async home r = Costs-bind count Costs-ensure λ _.
      Costs-bind count Costs-resolve λ app_id.
        Costs-bind count (Costs-username_param_id cfg.terrain.system_id app_id) λ param_id.
          Costs-bind count (Costs-observe count _ (λ w. omega arith)) λ seconds.
            Costs-bind count (Costs-do_authed_json H M c count K _ _ _)
              λ result. Costs-bind count (Costs-lift count _) λ id. Costs-pure count _

abbrev pub beside_calls : {W : Type 0} → AppMemory W → AppMemory (Counted W)
beside_calls A = record {
  app_id = λ w. A.app_id w.0;
  set_app_id = λ s w. (A.set_app_id s w.0, w.1);
  app_id-set_app_id = λ s w. A.app_id-set_app_id s w.0;
}

-- An asynchronous deletion calls `Do` of the HTTP client twelve times at most, whatever is answered:
-- four times for each of the search for the app, its description and the submission.
pub delete_user_async-Costs :
    {W : Type 0} (H : Http W) (M : Terrain.Memory W) (A : AppMemory W) (c : Client) (cfg : Config)
    (floats : Floats) (equal_fold : String → String → Bool) (shown : Members → String)
    (home : String → String) (r : Request)
    → Costs calls 12 (
        delete_user_async
          (counted H)
          (beside_count M)
          (beside_calls A)
          c
          cfg
          floats
          equal_fold
          shown
          home
          r)
delete_user_async-Costs H M A c cfg floats equal_fold shown home r =
    Costs-delete_user_async (counted H) (beside_count M) (beside_calls A) c cfg floats equal_fold
      shown calls (counted-Counts H M) (λ s w. omega arith) home r
