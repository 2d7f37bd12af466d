-- ===== src/Examples/Users.antt =====
-- The deletion and the provisioning of users on the services in memory.
use portal_conductor.Base.{◌≡◌, refl, false}
use portal_conductor.Base.Text.{atoi}
use portal_conductor.External.Effect
use portal_conductor.External.Effect.{ok, Done}
use portal_conductor.Kinds.{CreateUserRequest}
use portal_conductor.LdapClient
use portal_conductor.LdapClient.Connection.{
  with_connection, dial, dial_only, search_entries, user_dn, group_dn,
}
use portal_conductor.LdapClient.Users.{
  get_user, get_user_groups, remove_user_from_group, days_since_epoch, add_user_to_group,
  create_user, change_password, user_in_group, validate_uid_number,
}
use portal_conductor.LdapClient.Provision.{ensure_in_group, ensure_entry, create_user_with_groups}
use portal_conductor.LdapClient.Provision.Refinement.{create_user_with_groups-provisioned}
use portal_conductor.LdapClient.Directory.{provisioned}
use portal_conductor.UserDel.{from_ldap, leave_group, remove_entry}
use portal_conductor.UserDel.Removal.{removed, from_ldap-removed}
use portal_conductor.Examples.World.{start}
use portal_conductor.Examples.Ldap.{server, client, view, is_directory}

abbrev bob : CreateUserRequest
bob = record {
  first_name = "Bob";
  last_name = "Ray";
  email = "bob@example.org";
  username = "bob";
  user_uid = "10009";
  password = "secret";
  department = "d";
  organization = "o";
  title = "t";
}

create_user_with_groups-provisioned_example :
    view (create_user_with_groups server client bob "everyone" "community" start).1
    ≡ provisioned "bob" "everyone" "community" (view start)
unfolding create_user_with_groups ensure_entry ensure_in_group get_user with_connection dial
    dial_only search_entries get_user_groups user_in_group days_since_epoch create_user
    change_password add_user_to_group validate_uid_number user_dn group_dn Effect.◌>>=◌ Effect.pure
    Effect.lift Effect.context Effect.on_error Effect.deferring Effect.for_each atoi
create_user_with_groups-provisioned_example =
    create_user_with_groups-provisioned server client view is_directory bob "everyone" "community"
      start refl

from_ldap-removed_example :
    view (from_ldap server client "ann" false start).1 ≡ removed "ann" (view start)
unfolding from_ldap remove_entry leave_group get_user with_connection dial dial_only search_entries
    get_user_groups remove_user_from_group LdapClient.Users.delete_user user_dn group_dn
    Effect.◌>>=◌ Effect.pure Effect.context Effect.on_error Effect.deferring Effect.for_each
    Effect.when
from_ldap-removed_example = from_ldap-removed server client view is_directory "ann" start refl
