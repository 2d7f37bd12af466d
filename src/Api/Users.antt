-- ===== src/Api/Users.antt =====
-- api/users.go: users across LDAP and the datastore. Main always builds both clients.
use portal_conductor.Base.{ℕ, String, false, [], ◌∷◌}
use portal_conductor.Base.Int.{ℤ}
use portal_conductor.Json.{Json}
use portal_conductor.Config.{Config}
use portal_conductor.External.Effect.{pure, lift, ◌>>=◌, ◌>>◌}
use portal_conductor.LdapClient
use portal_conductor.LdapClient.{Client}
use portal_conductor.LdapClient.Users.{set_shadow_last_change, days_since_epoch}
use portal_conductor.LdapClient.Provision.{create_user_with_groups}
use portal_conductor.DataStore
use portal_conductor.DataStore.{DataStore}
use portal_conductor.DataStore.Provision.{create_user_with_permissions}
use portal_conductor.UserDel.{from_datastore, from_ldap}
use portal_conductor.Api.{Handler, user, valid}
use portal_conductor.Api.Errors.{write_json}
use portal_conductor.Api.Body.{decode_body}
use portal_conductor.Api.Requests.{
  create_user_fields, empty_user, create_user_required_fields, single_field,
}

module _ {W Conn Fs : Type 0} (L : LdapClient.Server W Conn) (c : Client)
    (S : DataStore.Server W Fs) (d : DataStore) (cfg : Config) (describe : Json → String) where
  unfoldable pub add_user : Handler W
  add_user r = do
    u ← lift (decode_body create_user_fields describe r.body empty_user create_user_required_fields)
    create_user_with_groups L c u cfg.ldap.everyone_group cfg.ldap.community_group
    create_user_with_permissions S d u.username u.password cfg.irods.ipcservices_user
        cfg.irods.admin_user
    pure (write_json 200 (user u.username))

  unfoldable pub validate_credentials : Handler W
  validate_credentials r = do
    password ← lift (decode_body (single_field "password") describe r.body "" ("password" ∷ []))
    is_valid ← LdapClient.Users.validate_credentials L c (r.path_value "username") password
    pure (write_json 200 (valid is_valid))

  unfoldable pub change_password : Handler W
  change_password r = do
    password ← lift (decode_body (single_field "password") describe r.body "" ("password" ∷ []))
    LdapClient.Users.change_password L c (r.path_value "username") password
    days ← days_since_epoch L c
    set_shadow_last_change L c days (r.path_value "username")
    DataStore.Users.change_password S d (r.path_value "username") password
    pure (write_json 200 (user (r.path_value "username")))

  unfoldable pub delete_user : ℤ → ℕ → Handler W
  delete_user home_protected fuel r = do
    from_datastore S d home_protected fuel (r.path_value "username") false
    from_ldap L c (r.path_value "username") false
    pure (write_json 200 (user (r.path_value "username")))
