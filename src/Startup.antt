-- ===== src/Startup.antt =====
-- main.go: the start of the server, the clients that it builds, and the listeners.
pub mod Listeners
use portal_conductor.Base.{
  zero, suc, String, ◌==◌, Bool, true, false, not, ◌&&◌, Option, none, some, List, [], ◌∷◌,
  if◌then◌else◌,
}
use portal_conductor.Base.Int.{ℤ, pos, negsuc}
use portal_conductor.Config.{Config, flex_int}
use portal_conductor.Config.Validation.{validate}
use portal_conductor.External.{Error, wrap, message}
use portal_conductor.External.Effect.{
  Result, ok, err, Call, Done, pure, fail, lift, context, observe, try, ◌>>=◌, ◌>>◌,
}
use portal_conductor.LdapClient
use portal_conductor.LdapClient.Connection as LdapConnection
use portal_conductor.DataStore.{DataStore}
use portal_conductor.Terrain
use portal_conductor.Mailman
use portal_conductor.EmailService.{new_service}
use portal_conductor.PortalDb.{Database}
use portal_conductor.PortalDb.Connection.{Driver, connect}
use portal_conductor.Api.{Response}
use portal_conductor.Api.Async.{AppMemory}
use portal_conductor.Api.Assembly.{Api}
use portal_conductor.Api.Router.{Incoming, Route, serve_http}
use portal_conductor.Api.Router.Table.{Handlers, routes, health_routes}

-- The two handlers that a listener can have.
pub data Served : Type 0 where
  full_api health_checks : Served

pub record Listener : Type 0 where
  pub port : ℤ
  -- the certificate and its key, for HTTPS
  pub certificate : Option (String × String)
  pub served : Served

-- The ports that the command line gives; 0 where it gives none.
pub record Flags : Type 0 where
  pub http_port : ℤ
  pub https_port : ℤ

abbrev flag_or : ℤ → ℤ → ℤ
flag_or (pos (suc n)) other = pos (suc n)
flag_or (pos zero) other = other
flag_or (negsuc n) other = negsuc n

-- `fileExists`, over `os.Stat`.
unfoldable pub file_exists : (String → Bool) → String → Bool
file_exists stat path = if path == "" then false else stat path

unfoldable pub ssl_ready : (String → Bool) → Config → Bool
unfolding file_exists
ssl_ready stat cfg =
    cfg.ssl.enabled && file_exists stat cfg.ssl.cert_file && file_exists stat cfg.ssl.key_file

abbrev pub plain_http : ℤ → Served → Listener
plain_http port served = record { port = port; certificate = none; served = served }

-- Dual-port mode: health checks over HTTP, and the API over HTTPS.
abbrev pub dual_port : Config → ℤ → ℤ → List Listener
dual_port cfg http_port ssl_port =
    plain_http http_port health_checks
    ∷ record {
      port = ssl_port;
      certificate = some (cfg.ssl.cert_file, cfg.ssl.key_file);
      served = full_api;
    }
    ∷ []

-- `serve`: with SSL enabled and no certificates, the API goes back to HTTP.
unfoldable pub serve : (String → Bool) → Config → ℤ → ℤ → List Listener
unfolding ssl_ready
serve stat cfg http_port ssl_port =
    if ssl_ready stat cfg
    then dual_port cfg http_port ssl_port
    else plain_http http_port full_api ∷ []

-- The listeners that the flags and the configuration ask for.
unfoldable pub listeners : (String → Bool) → Config → Flags → List Listener
unfolding serve
listeners stat cfg flags =
    serve stat cfg (flag_or flags.http_port cfg.server.http_port)
      (flag_or flags.https_port cfg.ssl.port)

-- What a listener answers.
unfoldable pub answer :
    {W : Type 0}
    → Config
    → (String → String)
    → (Incoming → W → Response × W)
    → Response
    → Handlers W
    → Listener
    → Incoming
    → W
    → Response × W
answer cfg quoted docs moved h l i w = elim (l.served) [
  | full_api ↦ serve_http cfg quoted docs moved (routes h) i w
  | health_checks ↦ serve_http cfg quoted docs moved health_routes i w
]

module _ {W LdapConn Tx : Type 0} (L : LdapClient.Server W LdapConn) (D : Driver W Tx)
    (A : AppMemory W) (parse_url : String → Result Done) where
  abbrev ldap_client : Config → LdapClient.Client
  ldap_client cfg = record {
    url = cfg.ldap.url;
    bind_dn = cfg.ldap.user;
    bind_password = cfg.ldap.password;
    base_dn = cfg.ldap.base_dn;
  }

  abbrev optional : {B : Type 0} → Result B → Option B
  optional (ok b) = some b
  optional (err e) = none

  -- The portal database, where it is configured and can be reached.
  unfoldable pub portal_db : Config → Call W (Option (Database W Tx))
  portal_db cfg =
      if not (cfg.portal_db.host == "") && not (cfg.portal_db.name == "")
      then (do r ← try (connect D cfg.portal_db); pure (optional r))
      else pure none

  abbrev remember_app_id : Config → W → Done × W
  remember_app_id cfg w = (tt, A.set_app_id cfg.terrain.user_deletion_app_id w)

  -- `buildAPI`; an error ends the process.
  unfoldable pub build_api : Config → Call W (Api W Tx)
  build_api cfg = do
    ldap ← context "Failed to connect to LDAP" (LdapConnection.new L (ldap_client cfg))
    context "Failed to configure Terrain client" (lift (parse_url cfg.terrain.url))
    context "Failed to configure Mailman client" (lift (parse_url cfg.mailman.url))
    db ← portal_db cfg
    observe (remember_app_id cfg)
    pure (record {
      cfg = cfg;
      ldap = ldap;
      ds = record {
        host = cfg.irods.host;
        port = flex_int cfg.irods.port (pos 1247);
        user = cfg.irods.user;
        password = cfg.irods.password;
        zone = cfg.irods.zone;
      };
      terrain = record {
        base_url = cfg.terrain.url;
        username = cfg.terrain.user;
        password = cfg.terrain.password;
      };
      mailman = record { base_url = cfg.mailman.url; password = cfg.mailman.password };
      email = new_service cfg.smtp;
      portal_db = db;
    })

  abbrev refused : Option String → Call W Done
  refused (some reason) = fail (message reason)
  refused none = pure tt

  -- `main`: the API and the listeners that serve it, or the error with which the process exits.
  unfoldable pub run : (String → Bool) → Config → Flags → Call W (Api W Tx × List Listener)
  run stat cfg flags = do
    refused (validate cfg)
    a ← build_api cfg
    pure (a, listeners stat cfg flags)
