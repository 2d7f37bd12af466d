-- ===== src/LdapClient/Provision.antt =====
-- `CreateUserWithGroups`: the user entry, its password, and the default groups.
pub mod Refinement
pub mod Frame
use portal_conductor.Base.{
  String, ◌==◌, Bool, true, false, Option, none, some, List, [], ◌∷◌, if◌then◌else◌,
}
use portal_conductor.External.Effect.{Call, Done, pure, ◌>>=◌, ◌>>◌, for_each}
use portal_conductor.Kinds.{CreateUserRequest}
use portal_conductor.LdapClient.{Server, Client, Entry}
use portal_conductor.LdapClient.Users.{
  get_user, create_user, change_password, user_in_group, add_user_to_group, days_since_epoch,
}

module _ {W Conn : Type 0} (S : Server W Conn) (c : Client) where
  -- One round of the loop over the groups.
  unfoldable pub ensure_in_group : String → String → Call W Done
  ensure_in_group username group = if group == "" then pure tt else do
    in_group ← user_in_group S c username group
    if in_group then pure tt else add_user_to_group S c username group

  -- The branch on the entry that was found.
  unfoldable pub ensure_entry : CreateUserRequest → Option Entry → Call W Done
  ensure_entry user (some entry) = pure tt
  ensure_entry user none = do
    days ← days_since_epoch S c
    create_user S c days user
    change_password S c user.username user.password

  unfoldable pub create_user_with_groups : CreateUserRequest → String → String → Call W Done
  create_user_with_groups user everyone_group community_group = do
    existing ← get_user S c user.username
    ensure_entry user existing
    for_each (ensure_in_group user.username) (everyone_group ∷ community_group ∷ [])
