-- ===== src/UserDel.antt =====
-- The user-deletion sequences shared by the endpoint and the batch job (userdel/userdel.go). The
-- log lines, and the prefix "[DRY RUN] " that they get, are left out.
pub mod DryRun
pub mod Removal
pub mod Frame
use portal_conductor.Base.{
  ℕ, String, Bool, true, false, not, Option, none, some, List, if◌then◌else◌,
}
use portal_conductor.Base.Int.{ℤ}
use portal_conductor.External.Effect.{Call, Done, pure, ◌>>=◌, ◌>>◌, when, for_each}
use portal_conductor.LdapClient
use portal_conductor.LdapClient.{Client, Entry, Group}
use portal_conductor.LdapClient.Attributes.{first_value}
use portal_conductor.LdapClient.Users.{get_user, get_user_groups, remove_user_from_group}
use portal_conductor.DataStore
use portal_conductor.DataStore.{DataStore}
use portal_conductor.DataStore.Users.{user_exists}
use portal_conductor.DataStore.Contents.{delete_home}

module _ {W Fs : Type 0} (S : DataStore.Server W Fs) (d : DataStore) (home_protected : ℤ)
    (fuel : ℕ) where
  -- `FromDatastore`; `fuel` bounds the depth of the collections under a home.
  unfoldable pub from_datastore : String → Bool → Call W Done
  from_datastore username dry_run = do
    there ← user_exists S d username
    if there
        then (do
          when (not dry_run) (delete_home S d home_protected fuel username)
          when (not dry_run) (DataStore.Users.delete_user S d username))
        else pure tt

module _ {W Conn : Type 0} (S : LdapClient.Server W Conn) (c : Client) where
  abbrev pub leave_named : String → Bool → Option String → Call W Done
  leave_named username dry_run none = pure tt
  leave_named username dry_run (some group_name) =
      when (not dry_run) (remove_user_from_group S c username group_name)

  -- One round of the loop over the groups: a group without a name is passed over.
  unfoldable pub leave_group : String → Bool → Group → Call W Done
  leave_group username dry_run group = leave_named username dry_run (first_value group.attrs "cn")

  -- What follows the look-up of the entry.
  unfoldable pub remove_entry : String → Bool → Option Entry → Call W Done
  remove_entry username dry_run none = pure tt
  remove_entry username dry_run (some entry) = do
    groups ← get_user_groups S c username
    for_each (leave_group username dry_run) groups
    when (not dry_run) (LdapClient.Users.delete_user S c username)

  -- `FromLDAP`.
  unfoldable pub from_ldap : String → Bool → Call W Done
  from_ldap username dry_run = do entry ← get_user S c username; remove_entry username dry_run entry
