-- ===== src/Config/File.antt =====
-- The configuration from a JSON file: `FlexString.UnmarshalJSON`, the overlay of the file on the
-- defaults, and `LoadFrom` with its fallback.
use portal_conductor.Base.{String, Option, none, some}
use portal_conductor.Json.{Json, Members, null, number, text}
use portal_conductor.Json.Decode.{
  Decoder, string_value, bool_value, int_value, overlay_field, overlay_struct, ◌>>=◌,
}
use portal_conductor.Config.{
  Config, Ssl, Server, Auth, Ldap, Irods, Terrain, Mailman, Smtp, PortalDb, Security, defaults,
}
use portal_conductor.Config.Env.{Environment, env_or, from_env}

-- `FlexString.UnmarshalJSON`: unlike a plain string's, a null empties it.
unfoldable pub flex_value : Decoder String
flex_value old (text s) = some s
flex_value old (number n) = some n
flex_value old null = some ""
flex_value old _ = none

ssl_fields : Members → Ssl → Option Ssl
ssl_fields ms c = do
  enabled ← overlay_field bool_value "enabled" ms c.enabled
  cert_file ← overlay_field string_value "cert_file" ms c.cert_file
  key_file ← overlay_field string_value "key_file" ms c.key_file
  port ← overlay_field int_value "port" ms c.port
  some (record { enabled = enabled; cert_file = cert_file; key_file = key_file; port = port })

server_fields : Members → Server → Option Server
server_fields ms c = do
  http_port ← overlay_field int_value "http_port" ms c.http_port
  some (record { http_port = http_port })

auth_section : Members → Auth → Option Auth
auth_section ms c = do
  enabled ← overlay_field bool_value "enabled" ms c.enabled
  username ← overlay_field string_value "username" ms c.username
  password ← overlay_field string_value "password" ms c.password
  realm ← overlay_field string_value "realm" ms c.realm
  some (record { enabled = enabled; username = username; password = password; realm = realm })

ldap_fields : Members → Ldap → Option Ldap
ldap_fields ms c = do
  url ← overlay_field string_value "url" ms c.url
  user ← overlay_field string_value "user" ms c.user
  password ← overlay_field string_value "password" ms c.password
  base_dn ← overlay_field string_value "base_dn" ms c.base_dn
  community_group ← overlay_field string_value "community_group" ms c.community_group
  everyone_group ← overlay_field string_value "everyone_group" ms c.everyone_group
  some (record {
    url = url;
    user = user;
    password = password;
    base_dn = base_dn;
    community_group = community_group;
    everyone_group = everyone_group;
  })

irods_fields : Members → Irods → Option Irods
irods_fields ms c = do
  host ← overlay_field string_value "host" ms c.host
  port ← overlay_field flex_value "port" ms c.port
  user ← overlay_field string_value "user" ms c.user
  password ← overlay_field string_value "password" ms c.password
  zone ← overlay_field string_value "zone" ms c.zone
  admin_user ← overlay_field string_value "admin_user" ms c.admin_user
  ipcservices_user ← overlay_field string_value "ipcservices_user" ms c.ipcservices_user
  some (record {
    host = host;
    port = port;
    user = user;
    password = password;
    zone = zone;
    admin_user = admin_user;
    ipcservices_user = ipcservices_user;
  })

terrain_fields : Members → Terrain → Option Terrain
terrain_fields ms c = do
  url ← overlay_field string_value "url" ms c.url
  user ← overlay_field string_value "user" ms c.user
  password ← overlay_field string_value "password" ms c.password
  app_id ← overlay_field string_value "user_deletion_app_id" ms c.user_deletion_app_id
  app_name ← overlay_field string_value "user_deletion_app_name" ms c.user_deletion_app_name
  system_id ← overlay_field string_value "system_id" ms c.system_id
  some (record {
    url = url;
    user = user;
    password = password;
    user_deletion_app_id = app_id;
    user_deletion_app_name = app_name;
    system_id = system_id;
  })

mailman_section : Members → Mailman → Option Mailman
mailman_section ms c = do
  enabled ← overlay_field bool_value "enabled" ms c.enabled
  url ← overlay_field string_value "url" ms c.url
  password ← overlay_field string_value "password" ms c.password
  some (record { enabled = enabled; url = url; password = password })

smtp_fields : Members → Smtp → Option Smtp
smtp_fields ms c = do
  host ← overlay_field string_value "host" ms c.host
  port ← overlay_field flex_value "port" ms c.port
  user ← overlay_field string_value "user" ms c.user
  password ← overlay_field string_value "password" ms c.password
  use_tls ← overlay_field bool_value "use_tls" ms c.use_tls
  use_ssl ← overlay_field bool_value "use_ssl" ms c.use_ssl
  from ← overlay_field string_value "from" ms c.from
  some (record {
    host = host;
    port = port;
    user = user;
    password = password;
    use_tls = use_tls;
    use_ssl = use_ssl;
    from = from;
  })

portal_db_fields : Members → PortalDb → Option PortalDb
portal_db_fields ms c = do
  host ← overlay_field string_value "host" ms c.host
  port ← overlay_field flex_value "port" ms c.port
  name ← overlay_field string_value "name" ms c.name
  user ← overlay_field string_value "user" ms c.user
  password ← overlay_field string_value "password" ms c.password
  sslmode ← overlay_field string_value "sslmode" ms c.sslmode
  some (record {
    host = host;
    port = port;
    name = name;
    user = user;
    password = password;
    sslmode = sslmode;
  })

security_fields : Members → Security → Option Security
security_fields ms c = do
  offset ← overlay_field int_value "uid_number_offset" ms c.uid_number_offset
  some (record { uid_number_offset = offset })

config_fields : Members → Config → Option Config
config_fields ms c = do
  ssl ← overlay_field (overlay_struct ssl_fields) "ssl" ms c.ssl
  server ← overlay_field (overlay_struct server_fields) "server" ms c.server
  auth ← overlay_field (overlay_struct auth_section) "auth" ms c.auth
  ldap ← overlay_field (overlay_struct ldap_fields) "ldap" ms c.ldap
  irods ← overlay_field (overlay_struct irods_fields) "irods" ms c.irods
  terrain ← overlay_field (overlay_struct terrain_fields) "terrain" ms c.terrain
  mailman ← overlay_field (overlay_struct mailman_section) "mailman" ms c.mailman
  smtp ← overlay_field (overlay_struct smtp_fields) "smtp" ms c.smtp
  portal_db ← overlay_field (overlay_struct portal_db_fields) "portal_db" ms c.portal_db
  security ← overlay_field (overlay_struct security_fields) "security" ms c.security
  some (record {
    ssl = ssl;
    server = server;
    auth = auth;
    ldap = ldap;
    irods = irods;
    terrain = terrain;
    mailman = mailman;
    smtp = smtp;
    portal_db = portal_db;
    security = security;
  })

-- `json.Unmarshal(data, c)` onto the defaults.
unfoldable pub unmarshal_config : Json → Option Config
unfolding overlay_field overlay_struct string_value bool_value int_value flex_value ssl_fields
    server_fields auth_section ldap_fields irods_fields terrain_fields mailman_section smtp_fields
    portal_db_fields security_fields config_fields
unmarshal_config = overlay_struct config_fields defaults

-- What reading a file gives.
pub data FileContents : Type 0 where
  unreadable : FileContents
  not_json : FileContents
  document : Json → FileContents

abbrev pub or_config : Config → Option Config → Config
or_config fallback none = fallback
or_config fallback (some c) = c

unfoldable pub load_contents : Environment → FileContents → Config
unfolding unmarshal_config
load_contents env unreadable = from_env env
load_contents env not_json = from_env env
load_contents env (document j) = or_config (from_env env) (unmarshal_config j)

-- `LoadFrom`, over what each file name reads as.
unfoldable pub load_from : Environment → (String → FileContents) → String → Config
unfolding load_contents
load_from env files config_file = load_contents env (files config_file)

-- `Load`.
unfoldable pub load : Environment → (String → FileContents) → Config
unfolding load_from
load env files = load_from env files (env_or env "PORTAL_CONDUCTOR_CONFIG" "config.json")
