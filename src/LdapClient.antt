-- ===== src/LdapClient.antt =====
-- The LDAP client (ldapclient/ldapclient.go): its requests, and the go-ldap library as an interface.
pub mod Connection
pub mod Users
pub mod Provision
pub mod Attributes
pub mod Frame
pub mod Directory
pub mod Membership
use portal_conductor.Base.{ℕ, String, List}
use portal_conductor.Base.Int.{ℤ}
use portal_conductor.External.Effect.{Call, Done}

-- `ldap.Entry`, with its attributes in the order of the reply.
pub record Entry : Type 0 where
  pub dn : String
  pub attributes : List (String × List String)

-- What `search` asks for; the scope (whole subtree), the aliases and the limits never change.
pub record SearchRequest : Type 0 where
  pub base_dn : String
  pub filter : String
  pub attributes : List String

pub record AddRequest : Type 0 where
  pub dn : String
  pub attributes : List (String × List String)

-- One change of a modify request, on one attribute.
pub data Change : Type 0 where
  add_values : String → List String → Change
  delete_values : String → List String → Change
  replace_values : String → List String → Change

pub record ModifyRequest : Type 0 where
  pub dn : String
  pub changes : List Change

-- The functions of go-ldap that the client calls, over any state of the world `W` and any handles
-- `Conn` of connections, and the clock that `DaysSinceEpoch` reads, in nanoseconds.
pub record Server (W Conn : Type 0) : Type 0 where
  pub dial_url : String → Call W Conn
  pub bind : Conn → String → String → Call W Done
  pub close : Conn → W → W
  pub search : Conn → SearchRequest → Call W (List Entry)
  pub add : Conn → AddRequest → Call W Done
  pub modify : Conn → ModifyRequest → Call W Done
  pub del : Conn → String → Call W Done
  pub password_modify : Conn → String → String → String → Call W Done
  pub escape_dn : String → String
  pub escape_filter : String → String
  pub since_epoch : W → ℤ

-- `Client`.
pub record Client : Type 0 where
  pub url : String
  pub bind_dn : String
  pub bind_password : String
  pub base_dn : String

-- `Group`, its attributes as assigned by `attrsMap`.
pub record Group : Type 0 where
  pub dn : String
  pub attrs : List (String × List String)
