-- ===== src/Config/Validation.antt =====
-- `MissingFields`, `Validate` and `TerrainAsyncConfigured`.
pub mod Complete
use portal_conductor.Base.{
  String, ◌<>◌, ◌==◌, Bool, true, false, not, ◌&&◌, ◌||◌, Option, none, some, List, [], ◌∷◌, ◌++◌,
  if◌then◌else◌,
}
use portal_conductor.Config.{Config}

pub record RequiredField : Type 0 where
  pub name : String
  pub value : String

unfoldable pub missing_fields : List RequiredField → List String
missing_fields [] = []
missing_fields (f ∷ fs) =
    let rest = missing_fields fs in if f.value == "" then f.name ∷ rest else rest

abbrev pub field : String → String → RequiredField
field name value = record { name = name; value = value }

-- The fields that are always required.
abbrev pub core_fields : Config → List RequiredField
core_fields c =
    field "ldap.url" c.ldap.url
    ∷ field "ldap.user" c.ldap.user
    ∷ field "ldap.password" c.ldap.password
    ∷ field "ldap.base_dn" c.ldap.base_dn
    ∷ field "ldap.everyone_group" c.ldap.everyone_group
    ∷ field "irods.host" c.irods.host
    ∷ field "irods.port" c.irods.port
    ∷ field "irods.user" c.irods.user
    ∷ field "irods.password" c.irods.password
    ∷ field "irods.zone" c.irods.zone
    ∷ field "terrain.user" c.terrain.user
    ∷ field "terrain.password" c.terrain.password
    ∷ []

abbrev pub mailman_fields : Config → List RequiredField
mailman_fields c =
    if c.mailman.enabled
    then field "mailman.url" c.mailman.url ∷ field "mailman.password" c.mailman.password ∷ []
    else []

abbrev pub auth_fields : Config → List RequiredField
auth_fields c =
    if c.auth.enabled
    then field "auth.username" c.auth.username ∷ field "auth.password" c.auth.password ∷ []
    else []

-- The list `required`, after both appends.
abbrev pub required_fields : Config → List RequiredField
required_fields c = core_fields c ++ (mailman_fields c ++ auth_fields c)

abbrev pub first_missing : List String → Option String
first_missing [] = none
first_missing (name ∷ names) = some ("required configuration field '" <> name <> "' is not set")

-- `Validate`: the text of the error, or none.
unfoldable pub validate : Config → Option String
unfolding missing_fields
validate c = first_missing (missing_fields (required_fields c))

unfoldable pub terrain_async_configured : Config → Bool
terrain_async_configured c =
    not (c.terrain.url == "")
    && not (c.terrain.user == "")
    && not (c.terrain.password == "")
    && (not (c.terrain.user_deletion_app_id == "") || not (c.terrain.user_deletion_app_name == ""))
