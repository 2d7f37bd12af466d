-- ===== src/Config.antt =====
-- The configuration (config/config.go): its sections and their defaults.
pub mod Env
pub mod File
pub mod Validation
use portal_conductor.Base.{String, ◌==◌, Bool, true, false, none, some, if◌then◌else◌}
use portal_conductor.Base.Int.{ℤ, pos}
use portal_conductor.Base.Text.{atoi}

-- `FlexString`, a text that a JSON string or number gives.
abbrev pub FlexString : Type 0
FlexString = String

-- `FlexString.Int`.
unfoldable pub flex_int : FlexString → ℤ → ℤ
flex_int s fallback = if s == "" then fallback else elim (atoi s) [ some n ↦ n | none ↦ fallback ]

pub record Ssl : Type 0 where
  pub enabled : Bool
  pub cert_file : String
  pub key_file : String
  pub port : ℤ

pub record Server : Type 0 where
  pub http_port : ℤ

pub record Auth : Type 0 where
  pub enabled : Bool
  pub username : String
  pub password : String
  pub realm : String

pub record Ldap : Type 0 where
  pub url : String
  pub user : String
  pub password : String
  pub base_dn : String
  pub community_group : String
  pub everyone_group : String

pub record Irods : Type 0 where
  pub host : String
  pub port : FlexString
  pub user : String
  pub password : String
  pub zone : String
  pub admin_user : String
  pub ipcservices_user : String

pub record Terrain : Type 0 where
  pub url : String
  pub user : String
  pub password : String
  pub user_deletion_app_id : String
  pub user_deletion_app_name : String
  pub system_id : String

pub record Mailman : Type 0 where
  pub enabled : Bool
  pub url : String
  pub password : String

pub record Smtp : Type 0 where
  pub host : String
  pub port : FlexString
  pub user : String
  pub password : String
  pub use_tls : Bool
  pub use_ssl : Bool
  pub from : String

pub record PortalDb : Type 0 where
  pub host : String
  pub port : FlexString
  pub name : String
  pub user : String
  pub password : String
  pub sslmode : String

pub record Security : Type 0 where
  pub uid_number_offset : ℤ

pub record Config : Type 0 where
  pub ssl : Ssl
  pub server : Server
  pub auth : Auth
  pub ldap : Ldap
  pub irods : Irods
  pub terrain : Terrain
  pub mailman : Mailman
  pub smtp : Smtp
  pub portal_db : PortalDb
  pub security : Security

abbrev pub defaults : Config
defaults = record {
  ssl = record { enabled = false; cert_file = ""; key_file = ""; port = pos 8443 };
  server = record { http_port = pos 8000 };
  auth = record { enabled = true; username = ""; password = ""; realm = "Portal Conductor API" };
  ldap = record {
    url = "";
    user = "";
    password = "";
    base_dn = "";
    community_group = "community";
    everyone_group = "";
  };
  irods = record {
    host = "";
    port = "";
    user = "";
    password = "";
    zone = "";
    admin_user = "rodsadmin";
    ipcservices_user = "ipcservices";
  };
  terrain = record {
    url = "";
    user = "";
    password = "";
    user_deletion_app_id = "";
    user_deletion_app_name = "portal-delete-user";
    system_id = "de";
  };
  mailman = record { enabled = false; url = ""; password = "" };
  smtp = record {
    host = "localhost";
    port = "25";
    user = "";
    password = "";
    use_tls = false;
    use_ssl = false;
    from = "noreply@cyverse.org";
  };
  portal_db = record {
    host = "";
    port = "5432";
    name = "";
    user = "";
    password = "";
    sslmode = "disable";
  };
  security = record { uid_number_offset = pos 2831 };
}
