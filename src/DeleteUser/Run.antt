-- ===== src/DeleteUser/Run.antt =====
-- `initConnections` and `main` of the job. Log lines are left out.
pub mod Unchanged
use portal_conductor.Base.{
  ℕ, String, ◌==◌, Bool, true, false, Option, none, some, List, if◌then◌else◌,
}
use portal_conductor.Base.Int.{ℤ, pos}
use portal_conductor.Config.{Config, flex_int}
use portal_conductor.Config.Env.{Environment, getenv}
use portal_conductor.Config.File.{FileContents, load_from}
use portal_conductor.External.Effect.{Result, ok, err, Call, Done, pure, ◌>>=◌}
use portal_conductor.Http.{Http}
use portal_conductor.Mailman
use portal_conductor.LdapClient
use portal_conductor.LdapClient.Connection as LdapConnection
use portal_conductor.DataStore
use portal_conductor.DataStore.{DataStore}
use portal_conductor.PortalDb.Connection.{Driver, connect}
use portal_conductor.DeleteUser.{validate_config}
use portal_conductor.DeleteUser.Arguments.{CliArgs, Parsed, parsed, usage_error, parse_args}
use portal_conductor.DeleteUser.Phases.{Deleter, delete_user}

-- What the process finds: the libraries, the environment and the files.
pub record Machine (W Conn Fs Tx : Type 0) : Type 0 where
  pub http : Http W
  pub ldap_server : LdapClient.Server W Conn
  pub irods_server : DataStore.Server W Fs
  pub driver : Driver W Tx
  pub parse_url : String → Result Done
  pub env : Environment
  pub files : String → FileContents
  pub home_protected : ℤ
  pub fuel : ℕ

-- The exit codes.
abbrev pub exit_success : ℕ
exit_success = 0

abbrev pub exit_config_error : ℕ
exit_config_error = 1

abbrev pub exit_deletion_error : ℕ
exit_deletion_error = 3

module _ {W Conn Fs Tx : Type 0} (m : Machine W Conn Fs Tx) where
  abbrev client_if_ok : Mailman.Client → Result Done → Option Mailman.Client
  client_if_ok client (ok d) = some client
  client_if_ok client (err e) = none

  -- The Mailman client, where it is enabled and its URL can be read; else the lists are skipped.
  abbrev mailman_client : Config → Option Mailman.Client
  mailman_client cfg =
      if cfg.mailman.enabled
      then client_if_ok (record { base_url = cfg.mailman.url; password = cfg.mailman.password })
          (m.parse_url cfg.mailman.url)
      else none

  unfoldable pub init_connections : Config → Call W (Deleter W Conn Fs Tx)
  init_connections cfg = do
    ldap ← LdapConnection.new m.ldap_server (record {
      url = cfg.ldap.url;
      bind_dn = cfg.ldap.user;
      bind_password = cfg.ldap.password;
      base_dn = cfg.ldap.base_dn;
    })
    db ← connect m.driver cfg.portal_db
    pure (record {
      http = m.http;
      ldap_server = m.ldap_server;
      irods_server = m.irods_server;
      database = db;
      mailman = mailman_client cfg;
      ldap = ldap;
      ds = record {
        host = cfg.irods.host;
        port = flex_int cfg.irods.port (pos 1247);
        user = cfg.irods.user;
        password = cfg.irods.password;
        zone = cfg.irods.zone;
      };
      home_protected = m.home_protected;
      fuel = m.fuel;
    })

  abbrev pub exit_code : Bool → ℕ
  exit_code true = exit_success
  exit_code false = exit_deletion_error

  -- The process ends by `os.Exit`, which runs no deferred call: the pool is not closed.
  abbrev pub connected : CliArgs → Result (Deleter W Conn Fs Tx) → W → ℕ × W
  connected args (err e) w = (exit_config_error, w)
  connected args (ok d) w =
      let (b, w') = delete_user d args.username args.dry_run w in (exit_code b, w')

  abbrev pub configured : CliArgs → Config → Option String → W → ℕ × W
  configured args cfg (some reason) w = (exit_config_error, w)
  configured args cfg none w = let (d, w') = init_connections cfg w in connected args d w'

  abbrev pub with_config : CliArgs → Config → W → ℕ × W
  with_config args cfg w = configured args cfg (validate_config cfg) w

  abbrev pub with_arguments : Parsed → W → ℕ × W
  with_arguments (usage_error reason) w = (exit_config_error, w)
  with_arguments (parsed args) w =
      if args.help
      then (exit_success, w)
      else with_config args (load_from m.env m.files args.config_path) w

  -- `main`: the exit code of the process.
  unfoldable pub run : List String → W → ℕ × W
  run argv w = with_arguments (parse_args (getenv m.env "PORTAL_CONDUCTOR_CONFIG") argv) w
