-- ===== src/DeleteUser/DryRun.antt =====
-- Dry runs of the deletion job, and the phase of the mailing lists.
use portal_conductor.Base.{String, ◌==◌, true, Option, none, some, List, Bool-cases, inl, inr}
use portal_conductor.Base.Int.{ℤ}
use portal_conductor.External.Effect.Keeps.{Keeps, keeps_rules}
use portal_conductor.External.Effect.Succeeds.{Succeeds}
use portal_conductor.Http.{Http}
use portal_conductor.Mailman
use portal_conductor.LdapClient.Frame as LdapFrame
use portal_conductor.DataStore.Frame as DataStoreFrame
use portal_conductor.PortalDb.{Database, UserInfo, EmailInfo, MailingListSubscription}
use portal_conductor.PortalDb.Accounts.{get_user}
use portal_conductor.PortalDb.Deletion
use portal_conductor.PortalDb.Deletion.{DeleteStep, run_step}
use portal_conductor.UserDel.{from_datastore, from_ldap}
use portal_conductor.UserDel.DryRun.{Keeps-from_datastore_dry, Keeps-from_ldap_dry}
use portal_conductor.DeleteUser.Phases.{
  unsubscribe, unsubscribe_email, remove_from_mailing_lists, lookup_user, delete_records,
  delete_from_portal_database, Deleter, mailing_lists, phases, run_phases, delete_user,
}

module _ {W : Type 0} (H : Http W) (client : Mailman.Client) where
  Keeps-unsubscribe_dry :
      {P : W → Type 0} (email : String) (s : MailingListSubscription)
      → Keeps P (unsubscribe H client email true s)
  unfolding unsubscribe
  Keeps-unsubscribe_dry email s = elim (Bool-cases (s.list_name == "")) [
    | inl e ↦ rw (e, unsubscribe) (search keeps_rules)
    | inr e ↦ rw (e, unsubscribe) (search keeps_rules)
  ]

  Keeps-unsubscribe_email_dry :
      {P : W → Type 0} (e : EmailInfo) → Keeps P (unsubscribe_email H client true e)
  unfolding unsubscribe_email
  Keeps-unsubscribe_email_dry e = search (keeps_rules, Keeps-unsubscribe_dry)

  Keeps-mailing_lists_dry :
      {P : W → Type 0} (emails : List EmailInfo)
      → Keeps P (remove_from_mailing_lists H client emails true)
  unfolding remove_from_mailing_lists
  Keeps-mailing_lists_dry emails = search (keeps_rules, Keeps-unsubscribe_email_dry)

-- Opening and ending transactions and looking a user up leave `P` as it was.
pub record TransactionsKeep {W Tx : Type 0} (D : Database W Tx) (P : W → Type 0) : Type 0 where
  pub begin_keeps : Keeps P D.begin
  pub begin_read_only_keeps : Keeps P D.begin_read_only
  pub rollback_keeps : (tx : Tx) (w : W) → P w → P (D.rollback tx w)
  pub select_user_keeps : (tx : Tx) (username : String) → Keeps P (D.select_user tx username)

module _ {W Tx : Type 0} (D : Database W Tx) {P : W → Type 0} (R : TransactionsKeep D P) where
  Keeps-get_user : (tx : Tx) (username : String) → Keeps P (get_user D tx username)
  unfolding get_user
  Keeps-get_user tx username = search (keeps_rules, R.select_user_keeps)

  Keeps-begin_read_only : Keeps P D.begin_read_only
  Keeps-begin_read_only = R.begin_read_only_keeps

  Keeps-begin : Keeps P D.begin
  Keeps-begin = R.begin_keeps

  pub Keeps-lookup_user : (username : String) → Keeps P (lookup_user D username)
  unfolding lookup_user
  Keeps-lookup_user username =
      search (keeps_rules, Keeps-begin_read_only, R.rollback_keeps, Keeps-get_user)

  Keeps-run_step_dry : (tx : Tx) (id : ℤ) (s : DeleteStep) → Keeps P (run_step D tx id true s)
  unfolding run_step
  Keeps-run_step_dry tx id s = search keeps_rules

  Keeps-delete_user_dry : (tx : Tx) (id : ℤ) → Keeps P (Deletion.delete_user D tx id true)
  unfolding Deletion.delete_user
  Keeps-delete_user_dry tx id = search (keeps_rules, Keeps-run_step_dry)

  Keeps-delete_records_dry : (tx : Tx) (id : ℤ) → Keeps P (delete_records D tx id true)
  unfolding delete_records
  Keeps-delete_records_dry tx id = search (keeps_rules, Keeps-delete_user_dry)

  Keeps-delete_from_portal_database_dry : (id : ℤ) → Keeps P (delete_from_portal_database D id true)
  unfolding delete_from_portal_database
  Keeps-delete_from_portal_database_dry id =
      search (keeps_rules, Keeps-begin, R.rollback_keeps, Keeps-delete_records_dry)

module _ {W Conn Fs Tx : Type 0} (d : Deleter W Conn Fs Tx) {P : W → Type 0}
    (L : LdapFrame.ReadsKeep d.ldap_server P) (F : DataStoreFrame.ReadsKeep d.irods_server P)
    (R : TransactionsKeep d.database P) where
  Keeps-mailing_lists :
      (m : Option Mailman.Client) (emails : List EmailInfo)
      → Keeps P (mailing_lists d m emails true)
  Keeps-mailing_lists none emails = search keeps_rules
  Keeps-mailing_lists (some client) emails = search (keeps_rules, Keeps-mailing_lists_dry)

  Keeps-datastore :
      (username : String)
      → Keeps P (from_datastore d.irods_server d.ds d.home_protected d.fuel username true)
  Keeps-datastore = Keeps-from_datastore_dry d.irods_server d.ds d.home_protected d.fuel F

  Keeps-ldap : (username : String) → Keeps P (from_ldap d.ldap_server d.ldap username true)
  Keeps-ldap = Keeps-from_ldap_dry d.ldap_server d.ldap L

  Keeps-records : (id : ℤ) → Keeps P (delete_from_portal_database d.database id true)
  Keeps-records = Keeps-delete_from_portal_database_dry d.database R

  Keeps-look_up : (username : String) → Keeps P (lookup_user d.database username)
  Keeps-look_up = Keeps-lookup_user d.database R

  Keeps-phases_dry :
      (username : String) (user : Option UserInfo) → Keeps P (phases d username true user)
  unfolding phases
  Keeps-phases_dry username none = search keeps_rules
  Keeps-phases_dry username (some user) =
      search (keeps_rules, Keeps-mailing_lists, Keeps-datastore, Keeps-ldap, Keeps-records) depth 9

  Keeps-run_phases_dry : (username : String) → Keeps P (run_phases d username true)
  unfolding run_phases
  Keeps-run_phases_dry username = search (keeps_rules, Keeps-look_up, Keeps-phases_dry)

  -- A dry run of the whole deletion, whatever it answers, leaves as it was everything that is left
  -- alone by the connections, searches and look-ups of LDAP, iRODS and the portal database and by
  -- transactions that are rolled back without a statement: no write is sent to any service.
  pub delete_user_dry-keeps :
      (username : String) (w : W) → P w → P (delete_user d username true w).1
  unfolding delete_user
  delete_user_dry-keeps username w h = (Keeps-run_phases_dry username).after w h
