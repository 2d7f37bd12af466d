-- ===== src/DeleteUser/Phases.antt =====
-- `deleteUser` and its phases. Log lines are left out.
use portal_conductor.Base.{
  ℕ, String, ◌==◌, Bool, true, false, ◌||◌, Option, none, some, List, is_empty, if◌then◌else◌,
}
use portal_conductor.Base.Int.{ℤ}
use portal_conductor.External.Effect.{
  Result, ok, err, Call, Done, pure, try, ◌>>=◌, ◌>>◌, for_each, deferring,
}
use portal_conductor.Http.{Http}
use portal_conductor.Mailman
use portal_conductor.LdapClient
use portal_conductor.DataStore
use portal_conductor.DataStore.{DataStore}
use portal_conductor.PortalDb.{Database, UserInfo, EmailInfo, MailingListSubscription}
use portal_conductor.PortalDb.Accounts.{get_user}
use portal_conductor.PortalDb.Deletion
use portal_conductor.UserDel.{from_datastore, from_ldap}

module _ {W : Type 0} (H : Http W) (client : Mailman.Client) where
  -- One round of the inner loop: a failed removal is logged, and does not end the loop.
  unfoldable pub unsubscribe : String → Bool → MailingListSubscription → Call W Done
  unsubscribe email dry_run subscription =
      if (subscription.list_name == "") || dry_run
      then pure tt
      else (do try (Mailman.remove_member H client subscription.list_name email); pure tt)

  unfoldable pub unsubscribe_email : Bool → EmailInfo → Call W Done
  unsubscribe_email dry_run email = for_each (unsubscribe email.email dry_run) email.mailing_lists

  unfoldable pub remove_from_mailing_lists : List EmailInfo → Bool → Call W Done
  remove_from_mailing_lists emails dry_run = for_each (unsubscribe_email dry_run) emails

module _ {W Tx : Type 0} (D : Database W Tx) where
  unfoldable pub lookup_user : String → Call W (Option UserInfo)
  lookup_user username = do
    tx ← D.begin_read_only
    deferring (D.rollback tx) (get_user D tx username)

  -- What runs between the begin and the deferred rollback.
  unfoldable pub delete_records : Tx → ℤ → Bool → Call W Done
  delete_records tx user_id dry_run = do
    Deletion.delete_user D tx user_id dry_run
    if dry_run then pure tt else D.commit tx

  unfoldable pub delete_from_portal_database : ℤ → Bool → Call W Done
  delete_from_portal_database user_id dry_run = do
    tx ← D.begin
    deferring (D.rollback tx) (delete_records tx user_id dry_run)

-- `deleter`, with what its clients are clients of.
pub record Deleter (W Conn Fs Tx : Type 0) : Type 0 where
  pub http : Http W
  pub ldap_server : LdapClient.Server W Conn
  pub irods_server : DataStore.Server W Fs
  pub database : Database W Tx
  pub mailman : Option Mailman.Client
  pub ldap : LdapClient.Client
  pub ds : DataStore
  pub home_protected : ℤ
  pub fuel : ℕ

module _ {W Conn Fs Tx : Type 0} (d : Deleter W Conn Fs Tx) where
  abbrev pub mailing_lists : Option Mailman.Client → List EmailInfo → Bool → Call W Done
  mailing_lists none emails dry_run = pure tt
  mailing_lists (some client) emails dry_run =
      if is_empty emails then pure tt else remove_from_mailing_lists d.http client emails dry_run

  -- The phases after the look-up. The value says whether the user was found.
  unfoldable pub phases : String → Bool → Option UserInfo → Call W Bool
  phases username dry_run none = pure false
  phases username dry_run (some user) = do
    mailing_lists d.mailman user.emails dry_run
    from_datastore d.irods_server d.ds d.home_protected d.fuel username dry_run
    from_ldap d.ldap_server d.ldap username dry_run
    delete_from_portal_database d.database user.id dry_run
    pure true

  unfoldable pub run_phases : String → Bool → Call W Bool
  run_phases username dry_run = do
    user ← lookup_user d.database username
    phases username dry_run user

  abbrev pub success_of : Result Bool → Bool
  success_of (ok b) = b
  success_of (err e) = false

  -- `deleteUser`: every error is logged and answered by false.
  unfoldable pub delete_user : String → Bool → W → Bool × W
  delete_user username dry_run w = let (r, w') = run_phases username dry_run w in (success_of r, w')
