-- ===== src/LdapClient/Users.antt =====
-- The operations of the LDAP client on single users and groups.
pub mod Uid
pub mod Credentials
use portal_conductor.Base.{
  ◌/◌, zero, suc, String, ◌<>◌, ◌==◌, Bool, true, false, Option, none, some, List, [], ◌∷◌, nat_eq,
  if◌then◌else◌,
}
use portal_conductor.Base.Int.{ℤ, pos, negsuc, is_negative, is_nonpositive}
use portal_conductor.Base.Text.{itoa, atoi}
use portal_conductor.External.{message, as_ldap_error}
use portal_conductor.External.Effect.{
  Result, ok, err, Call, Done, pure, fail, lift, try, ◌>>=◌, ◌>>◌, deferring,
}
use portal_conductor.Kinds.{CreateUserRequest}
use portal_conductor.LdapClient.{
  Server, Client, Entry, Group, add_values, delete_values, replace_values,
}
use portal_conductor.LdapClient.Attributes.{entries_to_groups, first_value}
use portal_conductor.LdapClient.Connection.{
  with_connection, dial_only, search_entries, user_dn, group_dn,
}

abbrev pub default_group_attrs : List String
default_group_attrs =
    "objectClass" ∷ "displayName" ∷ "sambaGroupType" ∷ "sambaSID" ∷ "gidNumber" ∷ "cn"
    ∷ "description" ∷ []

abbrev pub first_entry : List Entry → Option Entry
first_entry [] = none
first_entry (e ∷ es) = some e

abbrev pub first_dn : List Entry → String
first_dn [] = ""
first_dn (e ∷ es) = e.dn

-- `time.Since(time.Unix(0, 0)) / (24 * time.Hour)`, rounded towards zero.
abbrev pub days_of : ℤ → ℤ
days_of (pos n) = pos (n / 86_400_000_000_000)
days_of (negsuc n) = elim (suc n / 86_400_000_000_000) [ zero ↦ pos 0 | suc d ↦ negsuc d ]

unfoldable pub validate_uid_number : String → Result ℤ
validate_uid_number user_uid =
    let invalid = message ("invalid uidNumber '" <> user_uid <> "': must be a positive integer") in
    elim (atoi user_uid) [
      | none ↦ err invalid
      | some n ↦ if is_nonpositive n then err invalid else ok n
    ]

abbrev check_days : ℤ → Result Done
check_days days =
    if is_negative days
    then err
        (message ("invalid shadowLastChange '" <> itoa days <> "': must be a non-negative integer"))
    else ok tt

-- A refused password is an answer, any other failure of the bind an error (49 is
-- `LDAPResultInvalidCredentials`).
abbrev pub bind_answer : Result Done → Result Bool
bind_answer (ok _) = ok true
bind_answer (err e) = elim (as_ldap_error e) [
  | some code ↦ if nat_eq code 49 then ok false else err e
  | none ↦ err e
]

-- `len(g.Attrs["cn"]) > 0 && g.Attrs["cn"][0] == group`, for one group of the list.
abbrev pub has_name : String → Group → Bool
has_name group g = elim (first_value g.attrs "cn") [ some cn ↦ cn == group | none ↦ false ]

abbrev pub named : String → List Group → Bool
named group [] = false
named group (g ∷ gs) = if has_name group g then true else named group gs

module _ {W Conn : Type 0} (S : Server W Conn) (c : Client) where
  -- `DaysSinceEpoch`.
  unfoldable pub days_since_epoch : Call W ℤ
  days_since_epoch w = (ok (days_of (S.since_epoch w)), w)

  abbrev pub user_filter : String → String
  user_filter username = "(&(objectClass=posixAccount)(uid=" <> S.escape_filter username <> "))"

  abbrev pub person_filter : String → String
  person_filter username = "(&(objectClass=person)(uid=" <> S.escape_filter username <> "))"

  abbrev pub member_filter : String → String
  member_filter username =
      "(&(objectClass=posixGroup)(memberUid=" <> S.escape_filter username <> "))"

  unfoldable pub get_user : String → Call W (Option Entry)
  get_user username = with_connection S c λ conn. do
    entries ← search_entries S c conn (user_filter username) []
    pure (first_entry entries)

  unfoldable pub get_user_dn : String → Call W String
  get_user_dn username = with_connection S c λ conn. do
    entries ← search_entries S c conn (person_filter username) ("dn" ∷ [])
    pure (first_dn entries)

  unfoldable pub get_user_groups : String → Call W (List Group)
  get_user_groups username = with_connection S c λ conn. do
    entries ← search_entries S c conn (member_filter username) default_group_attrs
    pure (entries_to_groups entries)

  unfoldable pub get_groups : Call W (List Group)
  get_groups = with_connection S c λ conn. do
    entries ← search_entries S c conn "(objectClass=posixGroup)" default_group_attrs
    pure (entries_to_groups entries)

  -- The attributes of a new entry, in the order in which the request gets them.
  abbrev pub user_attributes : ℤ → ℤ → CreateUserRequest → List (String × List String)
  user_attributes uid_number days user =
      ("objectClass", "posixAccount" ∷ "shadowAccount" ∷ "inetOrgPerson" ∷ [])
      ∷ ("givenName", user.first_name ∷ [])
      ∷ ("sn", user.last_name ∷ [])
      ∷ ("cn", (user.first_name <> " " <> user.last_name) ∷ [])
      ∷ ("uid", user.username ∷ [])
      ∷ ("userPassword", user.password ∷ [])
      ∷ ("mail", user.email ∷ [])
      ∷ ("departmentNumber", user.department ∷ [])
      ∷ ("o", user.organization ∷ [])
      ∷ ("title", user.title ∷ [])
      ∷ ("homeDirectory", ("/home/" <> user.username) ∷ [])
      ∷ ("loginShell", "/bin/bash" ∷ [])
      ∷ ("gidNumber", "10013" ∷ [])
      ∷ ("uidNumber", itoa uid_number ∷ [])
      ∷ ("shadowLastChange", itoa days ∷ [])
      ∷ ("shadowMin", "1" ∷ [])
      ∷ ("shadowMax", "730" ∷ [])
      ∷ ("shadowInactive", "10" ∷ [])
      ∷ ("shadowWarning", "10" ∷ [])
      ∷ []

  unfoldable pub create_user : ℤ → CreateUserRequest → Call W Done
  create_user days user = do
    uid_number ← lift (validate_uid_number user.user_uid)
    lift (check_days days)
    with_connection S c λ conn. S.add conn (record {
      dn = user_dn S c user.username;
      attributes = user_attributes uid_number days user;
    })

  unfoldable pub user_in_group : String → String → Call W Bool
  user_in_group username group = do groups ← get_user_groups username; pure (named group groups)

  unfoldable pub add_user_to_group : String → String → Call W Done
  add_user_to_group username group = with_connection S c λ conn.
      S.modify conn
        (record { dn = group_dn S c group; changes = add_values "memberUid" (username ∷ []) ∷ [] })

  unfoldable pub remove_user_from_group : String → String → Call W Done
  remove_user_from_group username group = with_connection S c λ conn.
      S.modify conn (record {
        dn = group_dn S c group;
        changes = delete_values "memberUid" (username ∷ []) ∷ [];
      })

  unfoldable pub delete_user : String → Call W Done
  delete_user username = with_connection S c λ conn. S.del conn (user_dn S c username)

  unfoldable pub change_password : String → String → Call W Done
  change_password username password =
      with_connection S c λ conn. S.password_modify conn (user_dn S c username) "" password

  unfoldable pub set_shadow_last_change : ℤ → String → Call W Done
  set_shadow_last_change days username = do
    lift (check_days days)
    with_connection S c λ conn. S.modify conn (record {
      dn = user_dn S c username;
      changes = replace_values "shadowLastChange" (itoa days ∷ []) ∷ [];
    })

  unfoldable pub modify_user_attribute : String → String → String → Call W Done
  modify_user_attribute username attribute value =
      if value == ""
      then fail (message ("value cannot be empty for attribute '" <> attribute <> "'"))
      else with_connection S c λ conn.
        S.modify conn (record {
          dn = user_dn S c username;
          changes = replace_values attribute (value ∷ []) ∷ [];
        })

  -- The bind on a connection of its own, without the service's credentials.
  unfoldable pub bind_as : String → String → Call W Bool
  bind_as dn password = do
    conn ← dial_only S c
    deferring (S.close conn) (do r ← try (S.bind conn dn password); lift (bind_answer r))

  unfoldable pub validate_credentials : String → String → Call W Bool
  validate_credentials username password =
      if password == ""
      then pure false
      else do dn ← get_user_dn username; if dn == "" then pure false else bind_as dn password
