-- ===== src/DeleteUser/Frame.antt =====
-- What the phases of the job leave alone in the other systems.
use portal_conductor.Base.{String, Bool, true, false, List}
use portal_conductor.Base.Int.{ℤ}
use portal_conductor.External.Effect.Keeps.{Keeps, keeps_rules}
use portal_conductor.Http.{Http, Request}
use portal_conductor.Mailman
use portal_conductor.Mailman.{call, remove_member}
use portal_conductor.PortalDb.{Database, Delete, EmailInfo, MailingListSubscription}
use portal_conductor.PortalDb.Deletion
use portal_conductor.PortalDb.Deletion.{DeleteStep, run_step}
use portal_conductor.DeleteUser.Phases.{
  unsubscribe, unsubscribe_email, remove_from_mailing_lists, delete_records,
  delete_from_portal_database,
}

module _ {W : Type 0} (H : Http W) (client : Mailman.Client) {P : W → Type 0}
    (send_keeps : (r : Request) → Keeps P (H.send r)) where
  Keeps-call : (method : _) (u : _) (params : _) → Keeps P (call H client method u params)
  unfolding call
  Keeps-call method u params = search (keeps_rules, send_keeps) depth 9

  Keeps-remove_member :
      (list_name email : String) → Keeps P (remove_member H client list_name email)
  unfolding remove_member
  Keeps-remove_member list_name email = search (keeps_rules, Keeps-call)

  Keeps-unsubscribe :
      (email : String) (dry_run : Bool) (s : MailingListSubscription)
      → Keeps P (unsubscribe H client email dry_run s)
  unfolding unsubscribe
  Keeps-unsubscribe email dry_run s = search (keeps_rules, Keeps-remove_member)

  Keeps-unsubscribe_email :
      (dry_run : Bool) (e : EmailInfo) → Keeps P (unsubscribe_email H client dry_run e)
  unfolding unsubscribe_email
  Keeps-unsubscribe_email dry_run e = search (keeps_rules, Keeps-unsubscribe)

  pub Keeps-remove_from_mailing_lists :
      (emails : List EmailInfo) (dry_run : Bool)
      → Keeps P (remove_from_mailing_lists H client emails dry_run)
  unfolding remove_from_mailing_lists
  Keeps-remove_from_mailing_lists emails dry_run = search (keeps_rules, Keeps-unsubscribe_email)

-- No statement of the deletion and no transaction changes what `P` is about.
pub record StatementsKeep {W Tx : Type 0} (D : Database W Tx) (P : W → Type 0) : Type 0 where
  pub begin_keeps : Keeps P D.begin
  pub commit_keeps : (tx : Tx) → Keeps P (D.commit tx)
  pub rollback_keeps : (tx : Tx) (w : W) → P w → P (D.rollback tx w)
  pub delete_keeps : (tx : Tx) (s : Delete) (id : ℤ) → Keeps P (D.delete tx s id)

module _ {W Tx : Type 0} (D : Database W Tx) {P : W → Type 0} (R : StatementsKeep D P) where
  Keeps-begin : Keeps P D.begin
  Keeps-begin = R.begin_keeps

  Keeps-run_step :
      (tx : Tx) (id : ℤ) (dry_run : Bool) (s : DeleteStep) → Keeps P (run_step D tx id dry_run s)
  unfolding run_step
  Keeps-run_step tx id true s = search keeps_rules
  Keeps-run_step tx id false s = search (keeps_rules, R.delete_keeps)

  Keeps-delete_records :
      (tx : Tx) (id : ℤ) (dry_run : Bool) → Keeps P (delete_records D tx id dry_run)
  unfolding delete_records Deletion.delete_user
  Keeps-delete_records tx id dry_run = search (keeps_rules, R.commit_keeps, Keeps-run_step) depth 9

  pub Keeps-delete_from_portal_database :
      (id : ℤ) (dry_run : Bool) → Keeps P (delete_from_portal_database D id dry_run)
  unfolding delete_from_portal_database
  Keeps-delete_from_portal_database id dry_run =
      search (keeps_rules, Keeps-begin, R.rollback_keeps, Keeps-delete_records)
