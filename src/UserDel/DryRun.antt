-- ===== src/UserDel/DryRun.antt =====
-- Dry runs of the shared deletions.
use portal_conductor.Base.{ℕ, String, true, not, Option, none, some}
use portal_conductor.Base.Int.{ℤ}
use portal_conductor.External.Effect.{Call, Done, when}
use portal_conductor.External.Effect.Keeps.{Keeps, Keeps-pure, keeps_rules}
use portal_conductor.LdapClient
use portal_conductor.LdapClient.{Client, Entry, Group}
use portal_conductor.LdapClient.Frame
use portal_conductor.LdapClient.Frame.{Keeps-get_user, Keeps-get_user_groups}
use portal_conductor.LdapClient.Attributes.{first_value}
use portal_conductor.DataStore
use portal_conductor.DataStore.{DataStore}
use portal_conductor.DataStore.Frame.{Keeps-user_exists}
use portal_conductor.UserDel.{from_datastore, from_ldap, leave_group, leave_named, remove_entry}

-- What is done only without `--dry-run` is not done with it.
Keeps-not_dry : {W : Type 0} {P : W → Type 0} (m : Call W Done) → Keeps P (when (not true) m)
unfolding when
Keeps-not_dry m = Keeps-pure tt

module _ {W Fs : Type 0} (S : DataStore.Server W Fs) (d : DataStore) (home_protected : ℤ) (fuel : ℕ)
    {P : W → Type 0} (R : DataStore.Frame.ReadsKeep S P) where
  pub Keeps-from_datastore_dry :
      (username : String) → Keeps P (from_datastore S d home_protected fuel username true)
  unfolding from_datastore
  Keeps-from_datastore_dry username =
      search (keeps_rules, Keeps-user_exists S d R, Keeps-not_dry) depth 9

module _ {W Conn : Type 0} (S : LdapClient.Server W Conn) (c : Client) {P : W → Type 0}
    (R : LdapClient.Frame.ReadsKeep S P) where
  Keeps-leave_named_dry :
      (username : String) (name : Option String) → Keeps P (leave_named S c username true name)
  Keeps-leave_named_dry username none = Keeps-pure tt
  Keeps-leave_named_dry username (some group_name) = Keeps-not_dry _

  Keeps-leave_group_dry :
      (username : String) (g : Group) → Keeps P (leave_group S c username true g)
  unfolding leave_group
  Keeps-leave_group_dry username g = Keeps-leave_named_dry username (first_value g.attrs "cn")

  Keeps-remove_entry_dry :
      (username : String) (e : Option Entry) → Keeps P (remove_entry S c username true e)
  unfolding remove_entry
  Keeps-remove_entry_dry username none = Keeps-pure tt
  Keeps-remove_entry_dry username (some e) =
      search (keeps_rules, Keeps-get_user_groups S c R, Keeps-leave_group_dry, Keeps-not_dry) depth
        9

  pub Keeps-from_ldap_dry : (username : String) → Keeps P (from_ldap S c username true)
  unfolding from_ldap
  Keeps-from_ldap_dry username = search (keeps_rules, Keeps-get_user S c R, Keeps-remove_entry_dry)
