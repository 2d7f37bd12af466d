-- ===== src/DeleteUser/Run/Unchanged.antt =====
-- Runs of the job that change nothing.
use Prim.{⊥, absurd}
use portal_conductor.Base.{
  ◌<>◌, ℕ, ◌≡◌, refl, ◌∙◌, String, Bool, true, false, Option, none, some, List, ◌⊎◌, inl, inr,
  if◌then◌else◌,
}
use portal_conductor.Config
use portal_conductor.Config.{Config}
use portal_conductor.Config.Env.{getenv}
use portal_conductor.Config.File.{load_from}
use portal_conductor.External.Effect.{Result, ok, err, on_error, context}
use portal_conductor.External.Effect.Keeps.{
  Keeps, Keeps-bind, Keeps-deferring, Keeps-pure, Keeps-on_error, Keeps-context,
}
use portal_conductor.External.Effect.Triple.{
  Ends, Triple, Triple-bind, Triple-intro, Triple-of_keeps, Triple-pure,
}
use portal_conductor.LdapClient
use portal_conductor.LdapClient.Connection as LdapConnection
use portal_conductor.LdapClient.Frame as LdapFrame
use portal_conductor.DataStore.Frame as DataStoreFrame
use portal_conductor.PortalDb.{Database}
use portal_conductor.PortalDb.Connection.{Driver, connect}
use portal_conductor.DeleteUser.{validate_config}
use portal_conductor.DeleteUser.Arguments.{CliArgs, Parsed, parsed, usage_error, parse_args}
use portal_conductor.DeleteUser.Arguments.Flags.{asks_dry_run, parse_args-asks_dry_run}
use portal_conductor.DeleteUser.Phases.{Deleter, delete_user}
use portal_conductor.DeleteUser.DryRun.{TransactionsKeep, delete_user_dry-keeps}
use portal_conductor.DeleteUser.Run.{
  Machine, exit_success, exit_config_error, init_connections, exit_code, connected, configured,
  with_config, with_arguments, run,
}

-- Opening and closing a pool, and transactions without a statement in it, leave `P` as it was.
pub record DriverKeeps {W Tx : Type 0} (D : Driver W Tx) (P : W → Type 0) : Type 0 where
  pub opens :
      (source : String)
      → Triple P (D.open_pool source) (λ db w. P w × TransactionsKeep db P) (λ e. P)
  pub ping_keeps : (db : Database W Tx) → Keeps P (D.ping db)
  pub close_keeps : (db : Database W Tx) (w : W) → P w → P (D.close_pool db w)

module _ {W Conn Fs Tx : Type 0} (m : Machine W Conn Fs Tx) {P : W → Type 0}
    (L : LdapFrame.ReadsKeep m.ldap_server P) (F : DataStoreFrame.ReadsKeep m.irods_server P)
    (R : DriverKeeps m.driver P) where
  Keeps-new : (c : LdapClient.Client) → Keeps P (LdapConnection.new m.ldap_server c)
  unfolding LdapConnection.new
  Keeps-new c =
      Keeps-bind _ _ (LdapFrame.Keeps-dial m.ldap_server c L)
        λ conn. Keeps-deferring _ _ (L.close_keeps conn) (Keeps-pure c)

  -- The clients of a deleter leave `P` as it was when they read.
  abbrev IsHarmless : Deleter W Conn Fs Tx → Type 0
  IsHarmless d =
      LdapFrame.ReadsKeep d.ldap_server P
      × DataStoreFrame.ReadsKeep d.irods_server P
      × TransactionsKeep d.database P

  Triple-connect :
      (cfg : Config.PortalDb)
      → Triple P (connect m.driver cfg) (λ db w. P w × TransactionsKeep db P) (λ e. P)
  unfolding connect
  Triple-connect cfg =
      Triple-bind (λ db w. P w × TransactionsKeep db P) _ _ (R.opens _)
        λ db.
          Triple-bind (λ a w. P w × TransactionsKeep db P) _ _
            (Triple-intro _ (λ w h a e. ((pinged db).after w h.0, h.1))
              (λ w h x e. (pinged db).after w h.0))
            λ a. Triple-pure db (λ w h. h)
    where
      pinged :
          (db : Database W Tx)
          → Keeps P (
              on_error (m.driver.close_pool db) (
                context
                  ("connecting to portal database at " <> cfg.host
                    <> " failed (server down or bad credentials?)")
                  (m.driver.ping db)))
      pinged db = Keeps-on_error _ _ (R.close_keeps db) (Keeps-context _ _ (R.ping_keeps db))

  Triple-init_connections :
      (cfg : Config) → Triple P (init_connections m cfg) (λ d w. P w × IsHarmless d) (λ e. P)
  unfolding init_connections
  Triple-init_connections cfg =
      Triple-bind (λ c. P) _ _ (Triple-of_keeps (Keeps-new _))
        λ ldap.
          Triple-bind (λ db w. P w × TransactionsKeep db P) _ _ (Triple-connect cfg.portal_db)
            λ db. Triple-pure _ (λ w h. (h.0, (L, F, h.1)))

  -- The code of a configuration error does not come from a deletion.
  no_deletion_code : (b : Bool) → exit_code m b ≡ exit_config_error → ⊥
  no_deletion_code true e = cc
  no_deletion_code false e = cc

  connected-keeps :
      (args : CliArgs) (r : Result (Deleter W Conn Fs Tx)) (w : W)
      → Ends (λ d w. P w × IsHarmless d) (λ e. P) r w
      → ((connected m args r w).0 ≡ exit_config_error) ⊎ (args.dry_run ≡ true)
      → P (connected m args r w).1
  connected-keeps args (err e) w h c = h
  connected-keeps args (ok d) w h (inl e) =
      absurd (no_deletion_code (delete_user d args.username args.dry_run w).0 e)
  connected-keeps args (ok d) w h (inr e) =
      rw e (delete_user_dry-keeps d h.1.0 h.1.1 h.1.2 args.username w h.0)

  configured-keeps :
      (args : CliArgs) (cfg : Config) (o : Option String) (w : W)
      → P w
      → ((configured m args cfg o w).0 ≡ exit_config_error) ⊎ (args.dry_run ≡ true)
      → P (configured m args cfg o w).1
  configured-keeps args cfg (some reason) w h c = h
  configured-keeps args cfg none w h c =
      connected-keeps args (init_connections m cfg w).0 (init_connections m cfg w).1
        ((Triple-init_connections cfg).run w h) c

  with_arguments-keeps :
      (parsing : Parsed) (w : W)
      → P w
      → ((with_arguments m parsing w).0 ≡ exit_config_error)
        ⊎ ((r : CliArgs) → parsing ≡ parsed r → r.dry_run ≡ true)
      → P (with_arguments m parsing w).1
  with_arguments-keeps (usage_error reason) w h c = h
  with_arguments-keeps (parsed args) w h c = by_help args.help c
    where
      begun : ℕ × W
      begun = with_config m args (load_from m.env m.files args.config_path) w

      by_help :
          (b : Bool)
          → ((if b then (exit_success, w) else begun).0 ≡ exit_config_error)
            ⊎ ((r : CliArgs) → parsed args ≡ parsed r → r.dry_run ≡ true)
          → P (if b then (exit_success, w) else begun).1
      by_help true c = h
      by_help false c =
          configured-keeps args (load_from m.env m.files args.config_path)
            (validate_config (load_from m.env m.files args.config_path)) w h
            (elim c [ inl k ↦ inl k | inr k ↦ inr (k args refl) ])

  -- A run of the job that ends with the code 1, or whose command line asks for a dry run, leaves as it
  -- was everything that is left alone by the connections, searches and look-ups of LDAP, iRODS and the
  -- portal database and by transactions that are rolled back without a statement.
  pub run-keeps :
      (argv : List String) (w : W)
      → P w
      → ((run m argv w).0 ≡ exit_config_error) ⊎ (asks_dry_run false argv ≡ true)
      → P (run m argv w).1
  unfolding run
  run-keeps argv w h (inl e) = with_arguments-keeps _ w h (inl e)
  run-keeps argv w h (inr e) =
      with_arguments-keeps (parse_args (getenv m.env "PORTAL_CONDUCTOR_CONFIG") argv) w h
        (inr (λ r k. parse_args-asks_dry_run (getenv m.env "PORTAL_CONDUCTOR_CONFIG") argv r k ∙ e))
