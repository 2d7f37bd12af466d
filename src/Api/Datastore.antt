-- ===== src/Api/Datastore.antt =====
-- api/datastoremgmt.go: users and services of the datastore.
use portal_conductor.Base.{String, ◌<>◌, true, none, [], ◌∷◌}
use portal_conductor.Json.{Json}
use portal_conductor.Config.{Config}
use portal_conductor.External.{Error, error_text}
use portal_conductor.External.Effect.{pure, lift, rethrow, ◌>>=◌, ◌>>◌}
use portal_conductor.DataStore
use portal_conductor.DataStore.{DataStore}
use portal_conductor.DataStore.Users.{user_exists}
use portal_conductor.DataStore.Provision.{create_user_with_permissions, register_service}
use portal_conductor.Api
use portal_conductor.Api.{Request, Response, Handler, user, generic}
use portal_conductor.Api.Errors.{write_json, http_errorf}
use portal_conductor.Api.Body.{decode_body}
use portal_conductor.Api.Requests.{datastore_user_fields, datastore_service_fields}

-- A 500 response whose text ends in that of the error.
abbrev pub failed_to : String → Error → Error
failed_to what e = http_errorf 500 ("Failed to " <> what <> ": " <> error_text e)

module _ {W Fs : Type 0} (S : DataStore.Server W Fs) (d : DataStore) (cfg : Config)
    (describe : Json → String) where
  unfoldable pub create_datastore_user : Handler W
  create_datastore_user r = do
    u ← lift (
        decode_body datastore_user_fields describe r.body (record { username = ""; password = "" })
          ("username" ∷ "password" ∷ []))
    rethrow (failed_to "create datastore user") (
        create_user_with_permissions S d u.username u.password cfg.irods.ipcservices_user
          cfg.irods.admin_user)
    pure (write_json 200 (user u.username))

  unfoldable pub check_user_exists_in_datastore : Handler W
  check_user_exists_in_datastore r = do
    there ←
        rethrow (failed_to "check user existence in data store")
          (user_exists S d (r.path_value "username"))
    pure (write_json 200 (Api.user_exists (r.path_value "username") there))

  unfoldable pub register_datastore_service : Handler W
  register_datastore_service r = do
    u ← lift (
        decode_body datastore_service_fields describe r.body
          (record { irods_path = ""; irods_user = none }) ("irods_path" ∷ []))
    rethrow (failed_to "register datastore service")
        (register_service S d (r.path_value "username") u.irods_path u.irods_user)
    pure (
        write_json 200 (
          generic true (
            "User "
            <> r.path_value "username"
            <> " registered for datastore service "
            <> u.irods_path)))
