-- ===== src/Config/Env.antt =====
-- The configuration from environment variables: `envOr`, `envBool`, `envInt`, `fromEnv`.
use portal_conductor.Base.{String, ◌==◌, Bool, true, false, ◌||◌, Option, none, some, if◌then◌else◌}
use portal_conductor.Base.Int.{ℤ, pos}
use portal_conductor.Base.Text.{atoi, to_lower}
use portal_conductor.Config.{Config}

-- What `os.LookupEnv` answers for each variable.
abbrev pub Environment : Type 0
Environment = String → Option String

module _ (env : Environment) where
  -- `os.Getenv`: empty where the variable is not set.
  abbrev pub getenv : String → String
  getenv key = elim (env key) [ some v ↦ v | none ↦ "" ]

  unfoldable pub env_or : String → String → String
  env_or key fallback = if getenv key == "" then fallback else getenv key

  unfoldable pub env_bool : String → Bool → Bool
  env_bool key fallback =
      let v = to_lower (getenv key) in
      if getenv key == "" then fallback else v == "1" || v == "true" || v == "yes"

  unfoldable pub env_int : String → ℤ → ℤ
  env_int key fallback =
      if getenv key == ""
      then fallback
      else elim (atoi (getenv key)) [ some n ↦ n | none ↦ fallback ]

  -- A variable that is set and empty keeps its empty value.
  abbrev deletion_app_name : Option String → String
  deletion_app_name (some v) = v
  deletion_app_name none = "portal-delete-user"

  unfoldable pub from_env : Config
  unfolding env_or env_bool env_int
  from_env = record {
    ssl = record {
      enabled = env_bool "SSL_ENABLED" true;
      cert_file = env_or "SSL_CERT_FILE" "/etc/ssl/certs/tls.crt";
      key_file = env_or "SSL_KEY_FILE" "/etc/ssl/certs/tls.key";
      port = env_int "SSL_PORT" (pos 8443);
    };
    server = record { http_port = env_int "HTTP_PORT" (pos 8000) };
    auth = record {
      enabled = env_bool "AUTH_ENABLED" true;
      username = getenv "AUTH_USERNAME";
      password = getenv "AUTH_PASSWORD";
      realm = env_or "AUTH_REALM" "Portal Conductor API";
    };
    ldap = record {
      url = getenv "LDAP_URL";
      user = getenv "LDAP_USER";
      password = getenv "LDAP_PASSWORD";
      base_dn = getenv "LDAP_BASE_DN";
      community_group = env_or "LDAP_COMMUNITY_GROUP" "community";
      everyone_group = getenv "LDAP_EVERYONE_GROUP";
    };
    irods = record {
      host = getenv "IRODS_HOST";
      port = getenv "IRODS_PORT";
      user = getenv "IRODS_USER";
      password = getenv "IRODS_PASSWORD";
      zone = getenv "IRODS_ZONE";
      admin_user = env_or "DS_ADMIN_USER" "rodsadmin";
      ipcservices_user = env_or "IPCSERVICES_USER" "ipcservices";
    };
    terrain = record {
      url = env_or "TERRAIN_URL" "http://terrain/";
      user = getenv "TERRAIN_USER";
      password = getenv "TERRAIN_PASSWORD";
      user_deletion_app_id = getenv "TERRAIN_USER_DELETION_APP_ID";
      user_deletion_app_name = deletion_app_name (env "TERRAIN_USER_DELETION_APP_NAME");
      system_id = env_or "TERRAIN_SYSTEM_ID" "de";
    };
    mailman = record {
      enabled = env_bool "MAILMAN_ENABLED" false;
      url = getenv "MAILMAN_URL";
      password = getenv "MAILMAN_PASSWORD";
    };
    smtp = record {
      host = env_or "SMTP_HOST" "localhost";
      port = env_or "SMTP_PORT" "25";
      user = getenv "SMTP_USER";
      password = getenv "SMTP_PASSWORD";
      use_tls = env_bool "SMTP_USE_TLS" false;
      use_ssl = env_bool "SMTP_USE_SSL" false;
      from = env_or "SMTP_FROM" "noreply@cyverse.org";
    };
    portal_db = record {
      host = getenv "PORTAL_DB_HOST";
      port = env_or "PORTAL_DB_PORT" "5432";
      name = getenv "PORTAL_DB_NAME";
      user = getenv "PORTAL_DB_USER";
      password = getenv "PORTAL_DB_PASSWORD";
      sslmode = env_or "PORTAL_DB_SSLMODE" "disable";
    };
    security = record { uid_number_offset = env_int "UID_NUMBER_OFFSET" (pos 2831) };
  }
