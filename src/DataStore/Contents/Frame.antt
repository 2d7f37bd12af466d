-- ===== src/DataStore/Contents/Frame.antt =====
-- What removals in the datastore leave alone: whatever the server's own calls do.
use portal_conductor.Base.{ℕ, zero, suc, String, Bool, true, false}
use portal_conductor.Base.Int.{ℤ}
use portal_conductor.External.Effect.{Call, Result, ok, err, Done}
use portal_conductor.External.Effect.Keeps.{Keeps, keeps_rules}
use portal_conductor.DataStore.{DataStore, Server, DirEntry}
use portal_conductor.DataStore.Session.{filesystem}
use portal_conductor.DataStore.Contents.{
  delete_entry, delete_contents, after_removal, remove_home, delete_home,
}
use portal_conductor.DataStore.Users.{delete_user}
use portal_conductor.DataStore.Frame.{ReadsKeep, Keeps-filesystem}

-- No call that looks a user or a collection up, or removes one, changes what `P` is about.
pub record RemovalsKeep {W Fs : Type 0} (S : Server W Fs) (P : W → Type 0) : Type 0 where
  pub reads : ReadsKeep S P
  pub exists_dir_keeps : (fs : Fs) (path : String) (w : W) → P w → P (S.exists_dir fs path w).1
  pub list_dir_keeps : (fs : Fs) (path : String) → Keeps P (S.list_dir fs path)
  pub remove_dir_keeps :
      (fs : Fs) (path : String) (recurse force : Bool)
      → Keeps P (S.remove_dir fs path recurse force)
  pub remove_file_keeps :
      (fs : Fs) (path : String) (force : Bool) → Keeps P (S.remove_file fs path force)
  pub remove_user_keeps :
      (fs : Fs) (username zone kind : String) → Keeps P (S.remove_user fs username zone kind)

module _ {W Fs : Type 0} (S : Server W Fs) (d : DataStore) {P : W → Type 0}
    (K : RemovalsKeep S P) where
  Keeps-connected : Keeps P (filesystem S d)
  Keeps-connected = Keeps-filesystem S d K.reads

  Keeps-delete_entry :
      (fs : Fs) (contents : String → Call W Done) (entry : DirEntry)
      → ((path : String) → Keeps P (contents path))
      → Keeps P (delete_entry S fs contents entry)
  unfolding delete_entry
  Keeps-delete_entry fs contents entry k =
      search (keeps_rules, k, K.remove_dir_keeps, K.remove_file_keeps)

  Keeps-delete_contents :
      (fuel : ℕ) (fs : Fs) (path : String) → Keeps P (delete_contents S fuel fs path)
  unfolding delete_contents
  Keeps-delete_contents zero fs path = search keeps_rules
  Keeps-delete_contents (suc fuel) fs path =
      let inner = Keeps-delete_contents fuel fs in
      search (keeps_rules, K.list_dir_keeps, Keeps-delete_entry, inner)

  Keeps-after_removal :
      (home_protected : ℤ) (fuel : ℕ) (fs : Fs) (home : String) (r : Result Done)
      → Keeps P (after_removal S d home_protected fuel fs home r)
  unfolding after_removal
  Keeps-after_removal home_protected fuel fs home (ok a) = search keeps_rules
  Keeps-after_removal home_protected fuel fs home (err e) =
      search (keeps_rules, Keeps-delete_contents, K.remove_dir_keeps)

  Keeps-remove_home :
      (home_protected : ℤ) (fuel : ℕ) (fs : Fs) (home : String) (there : Bool)
      → Keeps P (remove_home S d home_protected fuel fs home there)
  Keeps-remove_home home_protected fuel fs home false = search keeps_rules
  Keeps-remove_home home_protected fuel fs home true =
      search (keeps_rules, K.remove_dir_keeps, Keeps-after_removal)

  pub Keeps-delete_home :
      (home_protected : ℤ) (fuel : ℕ) (username : String)
      → Keeps P (delete_home S d home_protected fuel username)
  unfolding delete_home
  Keeps-delete_home home_protected fuel username =
      search (keeps_rules, Keeps-connected, K.exists_dir_keeps, Keeps-remove_home) depth 9

  pub Keeps-delete_user : (username : String) → Keeps P (delete_user S d username)
  unfolding delete_user
  Keeps-delete_user username =
      let looked_up = K.reads.get_user_keeps in
      search (keeps_rules, Keeps-connected, looked_up, K.remove_user_keeps)
