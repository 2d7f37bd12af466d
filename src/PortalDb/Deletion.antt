-- ===== src/PortalDb/Deletion.antt =====
-- `DeleteUser` and its steps.
pub mod Order
pub mod Commit
pub mod Columns
use portal_conductor.Base.{String, ◌<>◌, Bool, true, false, List, [], ◌∷◌, map, if◌then◌else◌}
use portal_conductor.Base.Int.{ℤ}
use portal_conductor.External.Effect.{Call, Done, pure, context, for_each}
use portal_conductor.PortalDb.{Database, Delete, delete_where, delete_where_in}

-- `deleteStep`.
pub record DeleteStep : Type 0 where
  pub description : String
  pub statement : Delete

abbrev step : String → Delete → DeleteStep
step description statement = record { description = description; statement = statement }

-- `deleteSteps`, in its order.
abbrev pub delete_steps : List DeleteStep
delete_steps =
    step "django_cyverse_auth_token" (delete_where "django_cyverse_auth_token" "user_id")
    ∷ step "django_admin_log" (delete_where "django_admin_log" "user_id")
    ∷ step "warden_atmosphereinternationalrequest"
        (delete_where "warden_atmosphereinternationalrequest" "user_id")
    ∷ step "warden_atmospherestudentrequest"
        (delete_where "warden_atmospherestudentrequest" "user_id")
    ∷ step "enrollment request logs" (
        delete_where_in "api_workshopenrollmentrequestlog" "workshop_enrollment_request_id"
          "api_workshopenrollmentrequest" "user_id")
    ∷ step "access request logs"
        (delete_where_in "api_accessrequestlog" "access_request_id" "api_accessrequest" "user_id")
    ∷ step "account_passwordreset" (delete_where "account_passwordreset" "user_id")
    ∷ step "account_passwordresetrequest" (delete_where "account_passwordresetrequest" "user_id")
    ∷ step "api_userservice" (delete_where "api_userservice" "user_id")
    ∷ step "api_formsubmission" (delete_where "api_formsubmission" "user_id")
    ∷ step "api_workshopenrollmentrequest" (delete_where "api_workshopenrollmentrequest" "user_id")
    ∷ step "api_accessrequest" (delete_where "api_accessrequest" "user_id")
    ∷ step "api_workshoporganizer" (delete_where "api_workshoporganizer" "organizer_id")
    ∷ step "api_emailaddressmailinglist" (
        delete_where_in "api_emailaddressmailinglist" "email_address_id" "account_emailaddress"
          "user_id")
    ∷ step "account_emailaddress" (delete_where "account_emailaddress" "user_id")
    ∷ step "user record from account_user" (delete_where "account_user" "id")
    ∷ []

module _ {W Tx : Type 0} (D : Database W Tx) where
  -- One round of the loop.
  unfoldable pub run_step : Tx → ℤ → Bool → DeleteStep → Call W Done
  run_step tx user_id true s = pure tt
  run_step tx user_id false s =
      context ("deleting " <> s.description) (D.delete tx s.statement user_id)

  unfoldable pub delete_user : Tx → ℤ → Bool → Call W Done
  delete_user tx user_id dry_run = for_each (run_step tx user_id dry_run) delete_steps
