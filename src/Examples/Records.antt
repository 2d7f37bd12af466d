-- ===== src/Examples/Records.antt =====
-- The portal database, the registration and the deletion job on the services in memory.
use portal_conductor.Base.{
  ◌≡◌, refl, true, false, not, List, [], ◌∷◌, none, keep, All, if◌then◌else◌,
}
use portal_conductor.Base.Int.{pos}
use portal_conductor.Config.{defaults}
use portal_conductor.External.Effect.{Result, ok, err, Done}
use portal_conductor.External.Effect
use portal_conductor.External.Effect.Triple.{Ends}
use portal_conductor.Mailman
use portal_conductor.PortalDb.{EmailInfo}
use portal_conductor.Kinds.{PortalCreateUserRequest, portal_create_user_defaults}
use portal_conductor.PortalDb.Creation.{
  create_user_with_email, create_in, create_user_tx, create_email_address_tx, delete_user_by_id,
  delete_in,
}
use portal_conductor.PortalDb.Creation.Undo.{delete_user_by_id-create_user_with_email}
use portal_conductor.PortalDb.Deletion.{delete_steps}
use portal_conductor.PortalDb.Deletion.Order.{after, owned, after-delete_steps}
use portal_conductor.PortalDb.Deletion.Columns.{Unnamed, user_columns, after-delete_steps-Unnamed}
use portal_conductor.PortalDb.Deletion.Commit.{is_ok, planned, delete_from_portal_database-atomic}
use portal_conductor.DeleteUser.Phases.{delete_from_portal_database}
use portal_conductor.Api.Portal.Creation.{register, user_data}
use portal_conductor.Api.Portal.Creation.Compensation.{Undone, Registered, register-all_or_nothing}
use portal_conductor.Examples.World.{World, start}
use portal_conductor.Examples.Ldap
use portal_conductor.Examples.Tables.{database, committed, pending, is_relational}
use portal_conductor.Examples.Services.{services, failing_irods, data_store, calls_keep}

after-delete_steps_example :
    after delete_steps (pos 7) start.rows "account_user"
    ≡ keep
        (λ r. not (owned delete_steps (pos 7) start.rows "account_user" r))
        (start.rows "account_user")
after-delete_steps_example = after-delete_steps (pos 7) start.rows "account_user"

after-delete_steps-Unnamed_example :
    All (Unnamed (pos 7) (after delete_steps (pos 7) start.rows)) user_columns
after-delete_steps-Unnamed_example = after-delete_steps-Unnamed (pos 7) start.rows

delete_from_portal_database-atomic_example :
    committed (delete_from_portal_database database (pos 7) false start).1 ≡ (
      if is_ok (delete_from_portal_database database (pos 7) false start).0
      then after (planned false) (pos 7) (committed start)
      else committed start)
delete_from_portal_database-atomic_example =
    delete_from_portal_database-atomic database committed pending is_relational (pos 7) false start

abbrev bob : PortalCreateUserRequest
bob = record portal_create_user_defaults { username = "bob"; email = "bob@example.org" }

-- The world after the creation of Bob's rows, under the id 9.
abbrev created_world : World
created_world = (create_user_with_email database (user_data bob) start).1

delete_user_by_id-create_user_with_email_example :
    committed (delete_user_by_id database (pos 9) created_world).1 ≡ committed start
unfolding create_user_with_email create_in create_user_tx create_email_address_tx delete_user_by_id
    delete_in Effect.◌>>=◌ Effect.pure Effect.context Effect.deferring
delete_user_by_id-create_user_with_email_example =
    delete_user_by_id-create_user_with_email database committed pending is_relational
      (user_data bob) (pos 9) start created_world refl refl refl

register-all_or_nothing_example :
    Ends
      (Registered
        (services failing_irods)
        defaults
        database
        committed
        pending
        is_relational
        calls_keep
        Ldap.client
        data_store
        none
        bob
        (committed start))
      (Undone
        (services failing_irods)
        defaults
        database
        committed
        pending
        is_relational
        calls_keep
        Ldap.client
        data_store
        none
        bob
        (committed start))
      (register (services failing_irods) defaults database Ldap.client data_store none bob start).0
      (register (services failing_irods) defaults database Ldap.client data_store none bob start).1
register-all_or_nothing_example =
    register-all_or_nothing (services failing_irods) defaults database committed pending
      is_relational calls_keep Ldap.client data_store none bob start

abbrev mailman_client : Mailman.Client
mailman_client = record { base_url = "https://h/mailman"; password = "pw" }

abbrev ann_emails : List EmailInfo
ann_emails =
    record {
      email = "ann@example.org";
      mailing_lists = record { list_name = "news"; is_subscribed = true } ∷ [];
    }
    ∷ []
