-- ===== src/DeleteUser.antt =====
-- The batch job (cmd/delete-user/main.go): its command line, its configuration and its phases.
pub mod Arguments
pub mod Phases
pub mod DryRun
pub mod Run
pub mod Frame
pub mod Complete
use portal_conductor.Base.{
  String, ◌<>◌, ◌==◌, Option, none, some, List, [], ◌∷◌, join, if◌then◌else◌,
}
use portal_conductor.Config.{Config}
use portal_conductor.Config.Validation.{RequiredField, field, missing_fields}

-- The fields of `validateConfig`.
abbrev pub job_fields : Config → List RequiredField
job_fields c =
    field "ldap.url" c.ldap.url
    ∷ field "ldap.user" c.ldap.user
    ∷ field "ldap.password" c.ldap.password
    ∷ field "ldap.base_dn" c.ldap.base_dn
    ∷ field "irods.host" c.irods.host
    ∷ field "irods.port" c.irods.port
    ∷ field "irods.user" c.irods.user
    ∷ field "irods.password" c.irods.password
    ∷ field "irods.zone" c.irods.zone
    ∷ field "portal_db.host" c.portal_db.host
    ∷ field "portal_db.port" c.portal_db.port
    ∷ field "portal_db.name" c.portal_db.name
    ∷ field "portal_db.user" c.portal_db.user
    ∷ field "portal_db.password" c.portal_db.password
    ∷ []

abbrev all_missing : List String → Option String
all_missing [] = none
all_missing (name ∷ names) =
    some ("missing required configuration fields: " <> join ", " (name ∷ names))

-- `validateConfig`: the text of the error, or none.
unfoldable pub validate_config : Config → Option String
unfolding missing_fields
validate_config c = all_missing (missing_fields (job_fields c))
