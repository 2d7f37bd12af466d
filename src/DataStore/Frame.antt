-- ===== src/DataStore/Frame.antt =====
-- What the datastore's look-ups leave alone: whatever the server's own reads do.
use portal_conductor.Base.{String, Bool, true, false, List, Option, none, some}
use portal_conductor.External.Effect.Keeps.{Keeps, keeps_rules}
use portal_conductor.DataStore.{DataStore, Server, Access}
use portal_conductor.DataStore.Session.{connect, from_cache, filesystem}
use portal_conductor.DataStore.Users.{
  user_exists, create_user, change_password, make_home, ensure_user_exists,
}
use portal_conductor.DataStore.Provision.{set_owner_if_needed, create_user_with_permissions}

-- Connecting, remembering the connection and looking a user up leave `P` as it was.
pub record ReadsKeep {W Fs : Type 0} (S : Server W Fs) (P : W → Type 0) : Type 0 where
  pub connect_keeps : (d : DataStore) → Keeps P (S.new_file_system d)
  pub remember_keeps : (fs : Fs) (w : W) → P w → P (S.remember fs w)
  pub get_user_keeps : (fs : Fs) (username zone : String) → Keeps P (S.get_user fs username zone)

module _ {W Fs : Type 0} (S : Server W Fs) (d : DataStore) {P : W → Type 0}
    (R : ReadsKeep S P) where
  Keeps-connect : Keeps P (connect S d)
  unfolding connect
  Keeps-connect = search (keeps_rules, R.connect_keeps, R.remember_keeps)

  Keeps-from_cache : (cache : Option Fs) → Keeps P (from_cache S d cache)
  Keeps-from_cache (some fs) = search keeps_rules
  Keeps-from_cache none = Keeps-connect

  pub Keeps-filesystem : Keeps P (filesystem S d)
  unfolding filesystem
  Keeps-filesystem = search (keeps_rules, Keeps-from_cache)

  pub Keeps-user_exists : (username : String) → Keeps P (user_exists S d username)
  unfolding user_exists
  Keeps-user_exists username = search (keeps_rules, Keeps-filesystem, R.get_user_keeps)

-- No call that prepares a user changes what `P` is about.
pub record CallsKeep {W Fs : Type 0} (S : Server W Fs) (P : W → Type 0) : Type 0 where
  pub reads : ReadsKeep S P
  pub create_user_keeps :
      (fs : Fs) (username zone : String) → Keeps P (S.create_user fs username zone)
  pub password_keeps :
      (fs : Fs) (username zone password : String)
      → Keeps P (S.change_user_password fs username zone password)
  pub exists_dir_keeps : (fs : Fs) (path : String) (w : W) → P w → P (S.exists_dir fs path w).1
  pub make_dir_keeps : (fs : Fs) (path : String) → Keeps P (S.make_dir fs path)
  pub list_acls_keeps : (fs : Fs) (path : String) → Keeps P (S.list_acls fs path)
  pub set_owner_keeps :
      (fs : Fs) (path user zone : String) → Keeps P (S.set_owner fs path user zone)

module _ {W Fs : Type 0} (S : Server W Fs) (d : DataStore) {P : W → Type 0}
    (K : CallsKeep S P) where
  Keeps-connected : Keeps P (filesystem S d)
  Keeps-connected = Keeps-filesystem S d K.reads

  Keeps-there : (username : String) → Keeps P (user_exists S d username)
  Keeps-there = Keeps-user_exists S d K.reads

  Keeps-create_user : (username : String) → Keeps P (create_user S d username)
  unfolding create_user
  Keeps-create_user username = search (keeps_rules, Keeps-connected, K.create_user_keeps)

  Keeps-change_password :
      (username password : String) → Keeps P (change_password S d username password)
  unfolding change_password
  Keeps-change_password username password = search (keeps_rules, Keeps-connected, K.password_keeps)

  Keeps-make_home : (fs : Fs) (username : String) (b : Bool) → Keeps P (make_home S d fs username b)
  Keeps-make_home fs username true = search keeps_rules
  Keeps-make_home fs username false = search (keeps_rules, K.make_dir_keeps, K.set_owner_keeps)

  Keeps-ensure_user_exists : (username : String) → Keeps P (ensure_user_exists S d username)
  unfolding ensure_user_exists
  Keeps-ensure_user_exists username =
      search
        (
          keeps_rules, Keeps-there, Keeps-create_user, Keeps-connected, K.exists_dir_keeps,
          Keeps-make_home,
        )
        depth 9

  Keeps-set_owner_if_needed :
      (fs : Fs) (acls : List Access) (username path : String)
      → Keeps P (set_owner_if_needed S d fs acls username path)
  unfolding set_owner_if_needed
  Keeps-set_owner_if_needed fs acls username path = search (keeps_rules, K.set_owner_keeps)

  pub Keeps-create_user_with_permissions :
      (username password ipcservices_user admin_user : String)
      → Keeps P (create_user_with_permissions S d username password ipcservices_user admin_user)
  unfolding create_user_with_permissions
  Keeps-create_user_with_permissions username password ipcservices_user admin_user =
      search
        (
          keeps_rules, Keeps-ensure_user_exists, Keeps-change_password, Keeps-connected,
          K.list_acls_keeps, Keeps-set_owner_if_needed,
        )
        depth 9
