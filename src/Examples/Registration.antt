-- ===== src/Examples/Registration.antt =====
-- A registration that succeeds, on the services in memory.
use portal_conductor.Base.{◌≡◌, refl, ◌∙◌, Bool, true, false, none}
use portal_conductor.Base.Int.{pos, ◌+ℤ◌}
use portal_conductor.Config.{defaults}
use portal_conductor.External.Effect
use portal_conductor.External.Effect.{Done}
use portal_conductor.Kinds.{PortalCreateUserRequest, portal_create_user_defaults}
use portal_conductor.LdapClient.Directory.{Directory, provisioned}
use portal_conductor.Api.Portal.Creation.{
  register, created, check_request, provision, after_datastore, after_ldap, provision_datastore,
  set_job_limits,
}
use portal_conductor.Api.Portal.{username_valid, email_valid, all_name_codes}
use portal_conductor.PortalDb.Accounts.{
  is_restricted_username, user_exists_by_username, email_exists, get_occupation_name,
}
use portal_conductor.PortalDb.Creation.{
  create_user_with_email, create_in, create_user_tx, create_email_address_tx,
}
use portal_conductor.Base.Text.{itoa, atoi, to_lower}
use portal_conductor.DataStore.Provision.{create_user_with_permissions, set_owner_if_needed}
use portal_conductor.DataStore.Session.{connect, filesystem, user_home}
use portal_conductor.DataStore.Users.{ensure_user_exists, user_exists}
use portal_conductor.LdapClient.Connection.{
  dial, dial_only, group_dn, search_entries, user_dn, with_connection,
}
use portal_conductor.LdapClient.Provision.{create_user_with_groups, ensure_entry, ensure_in_group}
use portal_conductor.LdapClient.Users.{
  add_user_to_group, days_since_epoch, get_user, get_user_groups, user_in_group,
  validate_uid_number,
}
use portal_conductor.LdapClient.Users as LdapUsers
use portal_conductor.DataStore.Users as StorageUsers
use portal_conductor.Api.Portal.Creation.Membership.{DirectoryApart, register-provisioned}
use portal_conductor.Examples.World.{World, start}
use portal_conductor.Examples.Ldap
use portal_conductor.Examples.Tables.{database, numbered}
use portal_conductor.Examples.Services.{services, irods, data_store}

abbrev carl : PortalCreateUserRequest
carl = record portal_create_user_defaults {
  username = "carl";
  email = "carl@example.org";
  first_name = "Carl";
  last_name = "Ray";
  password = "secret12";
}

view-numbered : (w : World) (b : Bool) → Ldap.view (numbered w b).1 ≡ Ldap.view w
view-numbered w true = refl
view-numbered w false = refl

database_apart : (v : Directory) → DirectoryApart (services irods) database (λ w. Ldap.view w ≡ v)
database_apart v = record {
  rows_apart = record {
    begin_keeps = record { after = λ w h. h };
    commit_keeps = λ tx. record { after = λ w h. h };
    rollback_keeps = λ tx w h. h;
    insert_user_keeps = λ tx row. record { after = λ w h. view-numbered w _ ∙ h };
    insert_email_keeps = λ tx row. record { after = λ w h. h };
    select_exists_keeps = λ q s. record { after = λ w h. h };
    select_occupation_keeps = λ id. record { after = λ w h. h };
  };
  irods_apart = record {
    reads = record {
      connect_keeps = λ d. record { after = λ w h. h };
      remember_keeps = λ fs w h. h;
      get_user_keeps = λ fs username zone. record { after = λ w h. h };
    };
    create_user_keeps = λ fs username zone. record { after = λ w h. h };
    password_keeps = λ fs username zone password. record { after = λ w h. h };
    exists_dir_keeps = λ fs path w h. h;
    make_dir_keeps = λ fs path. record { after = λ w h. h };
    list_acls_keeps = λ fs path. record { after = λ w h. h };
    set_owner_keeps = λ fs path user zone. record { after = λ w h. h };
  };
  terrain_apart = record {
    send_keeps = λ r. record { after = λ w h. h };
    set_token_keeps = λ s t w h. h;
  };
  random_apart = record { after = λ w h. h };
}

register-provisioned_example :
    Ldap.view (register (services irods) defaults database Ldap.client data_store none carl start).1
    ≡ provisioned "carl" "" "community" (Ldap.view start)
unfolding register check_request provision after_datastore after_ldap provision_datastore
    set_job_limits username_valid email_valid all_name_codes is_restricted_username
    user_exists_by_username email_exists get_occupation_name create_user_with_email create_in
    create_user_tx create_email_address_tx ◌+ℤ◌ itoa atoi to_lower create_user_with_permissions
    set_owner_if_needed connect filesystem user_home ensure_user_exists user_exists dial dial_only
    group_dn search_entries user_dn with_connection create_user_with_groups ensure_entry
    ensure_in_group add_user_to_group days_since_epoch get_user get_user_groups user_in_group
    validate_uid_number LdapUsers.create_user LdapUsers.change_password StorageUsers.create_user
    StorageUsers.change_password Effect.◌>>=◌ Effect.pure Effect.context Effect.deferring
    Effect.on_error Effect.try Effect.lift Effect.when Effect.for_each Effect.observe Effect.fail
register-provisioned_example =
    register-provisioned (services irods) defaults database Ldap.client data_store Ldap.view
      Ldap.is_directory database_apart none carl start
      (created (services irods) defaults database Ldap.client data_store carl (pos 9)) refl
