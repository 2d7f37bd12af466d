-- ===== src/LdapClient/Provision/Frame.antt =====
-- What `CreateUserWithGroups` leaves alone.
use portal_conductor.Base.{String, Option, none, some}
use portal_conductor.External.Effect.Keeps.{Keeps, keeps_rules}
use portal_conductor.Kinds.{CreateUserRequest}
use portal_conductor.LdapClient.{Server, Client, Entry}
use portal_conductor.LdapClient.Users.{days_since_epoch}
use portal_conductor.LdapClient.Provision.{ensure_in_group, ensure_entry, create_user_with_groups}
use portal_conductor.LdapClient.Frame.{
  CallsKeep, Keeps-get_user, Keeps-user_in_group, Keeps-add_user_to_group, Keeps-create_user,
  Keeps-change_password,
}

module _ {W Conn : Type 0} (S : Server W Conn) (c : Client) {P : W → Type 0}
    (K : CallsKeep S P) where
  Keeps-days_since_epoch : Keeps P (days_since_epoch S c)
  unfolding days_since_epoch
  Keeps-days_since_epoch = record { after = λ w h. h }

  Keeps-ensure_in_group : (username group : String) → Keeps P (ensure_in_group S c username group)
  unfolding ensure_in_group
  Keeps-ensure_in_group username group =
      search (keeps_rules, Keeps-user_in_group S c K.reads, Keeps-add_user_to_group S c K) depth 9

  Keeps-ensure_entry :
      (user : CreateUserRequest) (o : Option Entry) → Keeps P (ensure_entry S c user o)
  unfolding ensure_entry
  Keeps-ensure_entry user (some e) = search keeps_rules
  Keeps-ensure_entry user none =
      search
        (keeps_rules, Keeps-days_since_epoch, Keeps-create_user S c K, Keeps-change_password S c K)
        depth 9

  pub Keeps-create_user_with_groups :
      (user : CreateUserRequest) (everyone community : String)
      → Keeps P (create_user_with_groups S c user everyone community)
  unfolding create_user_with_groups
  Keeps-create_user_with_groups user everyone community =
      search (keeps_rules, Keeps-get_user S c K.reads, Keeps-ensure_entry, Keeps-ensure_in_group)
        depth 9
