-- ===== src/DataStore/Provision.antt =====
-- `CreateUserWithPermissions` and `RegisterService`.
use portal_conductor.Base.{
  String, ◌<>◌, ◌==◌, Bool, false, Option, none, some, List, ◌&&◌, exists, if◌then◌else◌,
}
use portal_conductor.Base.Path.{is_abs, join_path}
use portal_conductor.External.Effect.{
  Result, ok, err, Call, Done, pure, context, observe, try, ◌>>=◌, ◌>>◌,
}
use portal_conductor.DataStore.{DataStore, Server, Access}
use portal_conductor.DataStore.Session.{filesystem, user_home}
use portal_conductor.DataStore.Users.{ensure_user_exists, change_password}

abbrev pub owned_by : String → List Access → Bool
owned_by username = exists (λ (perm : Access). (perm.user_name == username) && perm.is_owner)

-- `err == nil && inheritance != nil && inheritance.Inheritance`
abbrev pub inherits : Result (Option Bool) → Bool
inherits (ok (some flag)) = flag
inherits (ok none) = false
inherits (err e) = false

module _ {W Fs : Type 0} (S : Server W Fs) (d : DataStore) where
  unfoldable pub set_owner_if_needed : Fs → List Access → String → String → Call W Done
  set_owner_if_needed fs current_perms username irods_path =
      if owned_by username current_perms then pure tt else S.set_owner fs irods_path username d.zone

  unfoldable pub set_inherit_if_needed : Fs → String → Call W Done
  set_inherit_if_needed fs irods_path = do
    r ← try (S.get_inheritance fs irods_path)
    if inherits r then pure tt else S.set_inheritance fs irods_path

  unfoldable pub create_user_with_permissions : String → String → String → String → Call W Done
  create_user_with_permissions username password ipcservices_user admin_user = do
    ensure_user_exists S d username
    change_password S d username password
    fs ← filesystem S d
    current_perms ← S.list_acls fs (user_home S d username)
    set_owner_if_needed fs current_perms ipcservices_user (user_home S d username)
    set_owner_if_needed fs current_perms admin_user (user_home S d username)

  -- An absolute path is used as it is, any other is put under the user's home.
  unfoldable pub service_path : String → String → String
  service_path username irods_path =
      if is_abs irods_path then irods_path else join_path (user_home S d username) irods_path

  abbrev set_other_owner : Fs → List Access → Option String → String → Call W Done
  set_other_owner fs current_perms none full_path = pure tt
  set_other_owner fs current_perms (some user) full_path =
      set_owner_if_needed fs current_perms user full_path

  unfoldable pub register_service : String → String → Option String → Call W Done
  register_service username irods_path irods_user = do
    context ("failed to prepare user " <> username) (ensure_user_exists S d username)
    fs ← filesystem S d
    let full_path = service_path username irods_path
    there ← observe (S.exists fs full_path)
    if there then pure tt else S.make_dir fs full_path
    current_perms ← S.list_acls fs full_path
    is_collection ← observe (S.exists_dir fs full_path)
    if is_collection then set_inherit_if_needed fs full_path else pure tt
    set_owner_if_needed fs current_perms username full_path
    set_other_owner fs current_perms irods_user full_path
