-- ===== src/PortalDb/Creation.antt =====
-- `CreateUserWithEmail` and `DeleteUserByID`.
pub mod Undo
use portal_conductor.Base.{String, ◌<>◌, Bool, true, false}
use portal_conductor.Base.Int.{ℤ}
use portal_conductor.Base.Text.{itoa, to_lower}
use portal_conductor.External.Effect.{Call, Done, pure, context, ◌>>=◌, ◌>>◌, deferring}
use portal_conductor.PortalDb.{
  Database, CreateUserData, AccountUserRow, EmailAddressRow, delete_where,
}

-- The values of the INSERT: the given ones, with the email in lower case, and fixed ones.
abbrev pub account_user_row : CreateUserData → AccountUserRow
account_user_row data' = record {
  given = record data' { email = to_lower data'.email };
  is_superuser = false;
  is_staff = false;
  is_active = true;
  participate_in_study = true;
  subscribe_to_newsletter = true;
  orcid_id = "";
}

module _ {W Tx : Type 0} (D : Database W Tx) where
  unfoldable pub create_user_tx : Tx → CreateUserData → Call W ℤ
  create_user_tx tx user =
      context "inserting user into portal database" (D.insert_user tx (account_user_row user))

  unfoldable pub create_email_address_tx : Tx → ℤ → String → Bool → Bool → Call W Done
  create_email_address_tx tx user_id email primary verified =
      context ("inserting email address for user " <> itoa user_id) (
        D.insert_email tx (record {
          user_id = user_id;
          email = to_lower email;
          primary = primary;
          verified = verified;
        }))

  -- What runs between the begin and the deferred rollback.
  unfoldable pub create_in : Tx → CreateUserData → Call W ℤ
  create_in tx user = do
    user_id ← create_user_tx tx user
    create_email_address_tx tx user_id user.email true user.has_verified_email
    context "committing user creation transaction" (D.commit tx)
    pure user_id

  unfoldable pub create_user_with_email : CreateUserData → Call W ℤ
  create_user_with_email user = do
    tx ← context "beginning transaction" D.begin
    deferring (D.rollback tx) (create_in tx user)

  unfoldable pub delete_in : Tx → ℤ → Call W Done
  delete_in tx user_id = do
    context ("deleting email addresses for user " <> itoa user_id)
        (D.delete tx (delete_where "account_emailaddress" "user_id") user_id)
    context ("deleting user " <> itoa user_id)
        (D.delete tx (delete_where "account_user" "id") user_id)
    context "committing compensation transaction" (D.commit tx)

  unfoldable pub delete_user_by_id : ℤ → Call W Done
  delete_user_by_id user_id = do
    tx ← context "beginning compensation transaction" D.begin
    deferring (D.rollback tx) (delete_in tx user_id)
