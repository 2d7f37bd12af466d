-- ===== src/UserDel/Frame.antt =====
-- What the deletion of a user in one system leaves alone in the others.
use portal_conductor.Base.{ℕ, String, Bool, Option, none, some}
use portal_conductor.Base.Int.{ℤ}
use portal_conductor.External.Effect.Keeps.{Keeps, keeps_rules}
use portal_conductor.LdapClient
use portal_conductor.LdapClient.{Client, Entry, Group}
use portal_conductor.LdapClient.Attributes.{first_value}
use portal_conductor.LdapClient.Users.{remove_user_from_group}
use portal_conductor.LdapClient.Frame as LdapFrame
use portal_conductor.LdapClient.Frame.{CallsKeep}
use portal_conductor.DataStore
use portal_conductor.DataStore.{DataStore}
use portal_conductor.DataStore.Frame.{Keeps-user_exists}
use portal_conductor.DataStore.Contents.Frame as Contents
use portal_conductor.DataStore.Contents.Frame.{RemovalsKeep}
use portal_conductor.UserDel.{from_datastore, from_ldap, leave_named, leave_group, remove_entry}

module _ {W Fs : Type 0} (S : DataStore.Server W Fs) (d : DataStore) (home_protected : ℤ) (fuel : ℕ)
    {P : W → Type 0} (K : RemovalsKeep S P) where
  pub Keeps-from_datastore :
      (username : String) (dry_run : Bool)
      → Keeps P (from_datastore S d home_protected fuel username dry_run)
  unfolding from_datastore
  Keeps-from_datastore username dry_run =
      let there = Keeps-user_exists S d K.reads in
      let home = Contents.Keeps-delete_home S d K home_protected fuel in
      let user = Contents.Keeps-delete_user S d K in search (keeps_rules, there, home, user) depth 9

module _ {W Conn : Type 0} (S : LdapClient.Server W Conn) (c : Client) {P : W → Type 0}
    (K : CallsKeep S P) where
  Keeps-remove_user_from_group :
      (username group : String) → Keeps P (remove_user_from_group S c username group)
  unfolding remove_user_from_group
  Keeps-remove_user_from_group username group =
      LdapFrame.Keeps-with_connection S c K.reads _ (λ conn. K.modify_keeps conn _)

  Keeps-leave_named :
      (username : String) (dry_run : Bool) (cn : Option String)
      → Keeps P (leave_named S c username dry_run cn)
  Keeps-leave_named username dry_run none = search keeps_rules
  Keeps-leave_named username dry_run (some g) = search (keeps_rules, Keeps-remove_user_from_group)

  Keeps-leave_group :
      (username : String) (dry_run : Bool) (g : Group)
      → Keeps P (leave_group S c username dry_run g)
  unfolding leave_group
  Keeps-leave_group username dry_run g =
      Keeps-leave_named username dry_run (first_value g.attrs "cn")

  Keeps-remove_entry :
      (username : String) (dry_run : Bool) (e : Option Entry)
      → Keeps P (remove_entry S c username dry_run e)
  unfolding remove_entry
  Keeps-remove_entry username dry_run none = search keeps_rules
  Keeps-remove_entry username dry_run (some e) =
      let groups = LdapFrame.Keeps-get_user_groups S c K.reads in
      let deleted = LdapFrame.Keeps-delete_user S c K in
      search (keeps_rules, groups, deleted, Keeps-leave_group) depth 9

  pub Keeps-from_ldap :
      (username : String) (dry_run : Bool) → Keeps P (from_ldap S c username dry_run)
  unfolding from_ldap
  Keeps-from_ldap username dry_run =
      let found = LdapFrame.Keeps-get_user S c K.reads in
      search (keeps_rules, found, Keeps-remove_entry)
