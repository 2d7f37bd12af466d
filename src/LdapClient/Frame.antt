-- ===== src/LdapClient/Frame.antt =====
-- What the reading operations of the LDAP client leave alone: whatever the server's own reads do.
use portal_conductor.Base.{String}
use portal_conductor.External.Effect.{Call}
use portal_conductor.External.Effect.Keeps.{Keeps, keeps_rules}
use portal_conductor.Base.Int.{ℤ}
use portal_conductor.Kinds.{CreateUserRequest}
use portal_conductor.LdapClient.{Server, Client, SearchRequest, AddRequest, ModifyRequest}
use portal_conductor.LdapClient.Connection.{dial_only, dial, with_connection, search_entries}
use portal_conductor.LdapClient.Users.{
  delete_user, change_password, add_user_to_group, create_user, get_user, get_user_dn,
  get_user_groups, get_groups, user_in_group, bind_as, validate_credentials,
}

-- Opening, binding, searching and closing leave `P` as it was.
pub record ReadsKeep {W Conn : Type 0} (S : Server W Conn) (P : W → Type 0) : Type 0 where
  pub dial_keeps : (url : String) → Keeps P (S.dial_url url)
  pub bind_keeps : (conn : Conn) (dn password : String) → Keeps P (S.bind conn dn password)
  pub close_keeps : (conn : Conn) (w : W) → P w → P (S.close conn w)
  pub search_keeps : (conn : Conn) (r : SearchRequest) → Keeps P (S.search conn r)

module _ {W Conn : Type 0} (S : Server W Conn) (c : Client) {P : W → Type 0}
    (R : ReadsKeep S P) where
  Keeps-dial_only : Keeps P (dial_only S c)
  unfolding dial_only
  Keeps-dial_only = search (keeps_rules, R.dial_keeps)

  pub Keeps-dial : Keeps P (dial S c)
  unfolding dial
  Keeps-dial = search (keeps_rules, Keeps-dial_only, R.bind_keeps, R.close_keeps)

  pub Keeps-with_connection :
      {A : Type 0} (fn : Conn → Call W A)
      → ((conn : Conn) → Keeps P (fn conn))
      → Keeps P (with_connection S c fn)
  unfolding with_connection
  Keeps-with_connection fn k = search (keeps_rules, Keeps-dial, R.close_keeps, k)

  Keeps-search_entries :
      (conn : Conn) (filter : String) (attrs : _) → Keeps P (search_entries S c conn filter attrs)
  unfolding search_entries
  Keeps-search_entries conn filter attrs = R.search_keeps conn _

  pub Keeps-get_user : (username : String) → Keeps P (get_user S c username)
  unfolding get_user
  Keeps-get_user username = search (keeps_rules, Keeps-with_connection, Keeps-search_entries)

  pub Keeps-get_user_dn : (username : String) → Keeps P (get_user_dn S c username)
  unfolding get_user_dn
  Keeps-get_user_dn username = search (keeps_rules, Keeps-with_connection, Keeps-search_entries)

  pub Keeps-get_user_groups : (username : String) → Keeps P (get_user_groups S c username)
  unfolding get_user_groups
  Keeps-get_user_groups username = search (keeps_rules, Keeps-with_connection, Keeps-search_entries)

  pub Keeps-get_groups : Keeps P (get_groups S c)
  unfolding get_groups
  Keeps-get_groups = search (keeps_rules, Keeps-with_connection, Keeps-search_entries)

  pub Keeps-user_in_group : (username group : String) → Keeps P (user_in_group S c username group)
  unfolding user_in_group
  Keeps-user_in_group username group = search (keeps_rules, Keeps-get_user_groups)

  Keeps-bind_as : (dn password : String) → Keeps P (bind_as S c dn password)
  unfolding bind_as
  Keeps-bind_as dn password =
      search (keeps_rules, Keeps-dial_only, R.bind_keeps, R.close_keeps) depth 9

  pub Keeps-validate_credentials :
      (username password : String) → Keeps P (validate_credentials S c username password)
  unfolding validate_credentials
  Keeps-validate_credentials username password =
      search (keeps_rules, Keeps-get_user_dn, Keeps-bind_as) depth 9

-- No request of any kind changes what `P` is about.
pub record CallsKeep {W Conn : Type 0} (S : Server W Conn) (P : W → Type 0) : Type 0 where
  pub reads : ReadsKeep S P
  pub add_keeps : (conn : Conn) (r : AddRequest) → Keeps P (S.add conn r)
  pub modify_keeps : (conn : Conn) (r : ModifyRequest) → Keeps P (S.modify conn r)
  pub del_keeps : (conn : Conn) (dn : String) → Keeps P (S.del conn dn)
  pub password_keeps :
      (conn : Conn) (dn old new : String) → Keeps P (S.password_modify conn dn old new)

module _ {W Conn : Type 0} (S : Server W Conn) (c : Client) {P : W → Type 0}
    (K : CallsKeep S P) where
  Keeps-connected :
      {A : Type 0} (fn : Conn → Call W A)
      → ((conn : Conn) → Keeps P (fn conn))
      → Keeps P (with_connection S c fn)
  Keeps-connected = Keeps-with_connection S c K.reads

  pub Keeps-delete_user : (username : String) → Keeps P (delete_user S c username)
  unfolding delete_user
  Keeps-delete_user username = search (keeps_rules, Keeps-connected, K.del_keeps)

  pub Keeps-change_password :
      (username password : String) → Keeps P (change_password S c username password)
  unfolding change_password
  Keeps-change_password username password = search (keeps_rules, Keeps-connected, K.password_keeps)

  pub Keeps-add_user_to_group :
      (username group : String) → Keeps P (add_user_to_group S c username group)
  unfolding add_user_to_group
  Keeps-add_user_to_group username group = search (keeps_rules, Keeps-connected, K.modify_keeps)

  pub Keeps-create_user :
      (days : ℤ) (user : CreateUserRequest) → Keeps P (create_user S c days user)
  unfolding create_user
  Keeps-create_user days user = search (keeps_rules, Keeps-connected, K.add_keeps) depth 9
