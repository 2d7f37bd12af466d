-- ===== src/Api/Directory.antt =====
-- api/ldapmgmt.go: users and groups of LDAP.
pub mod Endpoints
pub mod Sorted
use portal_conductor.Base.{
  String, ◌<>◌, ◌==◌, Bool, true, false, Option, none, some, List, [], ◌∷◌, if◌then◌else◌,
}
use Prim.Native.Nat.{Ordering}
use Prim.Native.String.{compare}
use portal_conductor.Base.Text.{to_lower}
use portal_conductor.Json.{Json}
use portal_conductor.Config.{Config}
use portal_conductor.External.Effect.{Call, pure, fail, lift, ◌>>=◌, ◌>>◌}
use portal_conductor.Kinds.{LdapGroupInfo}
use portal_conductor.LdapClient
use portal_conductor.LdapClient.{Client, Entry, Group}
use portal_conductor.LdapClient.Attributes.{
  first_value, parse_user_attributes, parse_group_attributes,
}
use portal_conductor.LdapClient.Users.{
  get_user, get_user_groups, get_groups, user_in_group, add_user_to_group, remove_user_from_group,
  modify_user_attribute,
}
use portal_conductor.LdapClient.Provision.{create_user_with_groups}
use portal_conductor.Api.{Handler, user, generic, names, ldap_info, groups, user_exists}
use portal_conductor.Api.Errors.{write_json, http_errorf}
use portal_conductor.Api.Body.{decode_body}
use portal_conductor.Api.Requests.{
  create_user_fields, empty_user, create_user_required_fields, single_field,
}

-- The names of the groups that have one.
unfoldable pub group_names : List Group → List String
group_names [] = []
group_names (g ∷ gs) = elim (first_value g.attrs "cn") [
  | some cn ↦ cn ∷ group_names gs
  | none ↦ group_names gs
]

unfoldable pub named_infos : List Group → List LdapGroupInfo
named_infos [] = []
named_infos (g ∷ gs) =
    let info = parse_group_attributes g in
    let rest = named_infos gs in if info.name == "" then rest else info ∷ rest

-- `strings.Compare(strings.ToLower(a.Name), strings.ToLower(b.Name))`
unfoldable pub by_name : LdapGroupInfo → LdapGroupInfo → Ordering
by_name a b = compare (to_lower a.name) (to_lower b.name)

-- `slices.SortFunc` on the groups.
abbrev pub SortFunc : Type 0
SortFunc = (LdapGroupInfo → LdapGroupInfo → Ordering) → List LdapGroupInfo → List LdapGroupInfo

abbrev pub is_some : Option Entry → Bool
is_some (some _) = true
is_some none = false

module _ {W Conn : Type 0} (L : LdapClient.Server W Conn) (c : Client) (cfg : Config)
    (describe : Json → String) where
  unfoldable pub create_ldap_user : Handler W
  create_ldap_user r = do
    u ← lift (decode_body create_user_fields describe r.body empty_user create_user_required_fields)
    create_user_with_groups L c u cfg.ldap.everyone_group cfg.ldap.community_group
    pure (write_json 200 (user u.username))

  abbrev pub add_unless_member : String → String → Bool → Call W String
  add_unless_member username groupname true =
      pure ("User " <> username <> " already in group " <> groupname)
  add_unless_member username groupname false = do
    add_user_to_group L c username groupname
    pure ("User " <> username <> " added to group " <> groupname)

  unfoldable pub add_user_to_ldap_group : Handler W
  add_user_to_ldap_group r = do
    in_group ← user_in_group L c (r.path_value "username") (r.path_value "groupname")
    message ← add_unless_member (r.path_value "username") (r.path_value "groupname") in_group
    pure (write_json 200 (generic true message))

  unfoldable pub get_user_ldap_groups : Handler W
  get_user_ldap_groups r = do
    found ← get_user_groups L c (r.path_value "username")
    pure (write_json 200 (names (group_names found)))

  unfoldable pub remove_user_from_ldap_group : Handler W
  remove_user_from_ldap_group r = do
    remove_user_from_group L c (r.path_value "username") (r.path_value "groupname")
    pure (
        write_json 200 (
          generic true (
            "User "
            <> r.path_value "username"
            <> " removed from group "
            <> r.path_value "groupname")))

  -- The entry, or the 404 of a user that is not there.
  abbrev pub found_entry : String → Option Entry → Call W Entry
  found_entry username (some entry) = pure entry
  found_entry username none =
      fail (http_errorf 404 ("User '" <> username <> "' not found in LDAP directory"))

  unfoldable pub get_user_ldap_info : Handler W
  get_user_ldap_info r = do
    found ← get_user L c (r.path_value "username")
    entry ← found_entry (r.path_value "username") found
    pure (write_json 200 (ldap_info (parse_user_attributes (r.path_value "username") entry)))

  unfoldable pub get_ldap_groups : SortFunc → Handler W
  get_ldap_groups sort_func r = do
    found ← get_groups L c
    pure (write_json 200 (groups (sort_func by_name (named_infos found))))

  unfoldable pub check_user_exists_in_ldap : Handler W
  check_user_exists_in_ldap r = do
    found ← get_user L c (r.path_value "username")
    pure (write_json 200 (user_exists (r.path_value "username") (is_some found)))

  unfoldable pub modify_user_ldap_attribute : Handler W
  modify_user_ldap_attribute r = do
    value ← lift (decode_body (single_field "value") describe r.body "" ("value" ∷ []))
    found ← get_user L c (r.path_value "username")
    entry ← found_entry (r.path_value "username") found
    if value == ""
        then fail (
            http_errorf 400
              ("Value cannot be empty for attribute '" <> r.path_value "attribute" <> "'"))
        else modify_user_attribute L c (r.path_value "username") (r.path_value "attribute") value
    pure (
        write_json 200 (
          generic true (
            "Updated attribute '"
            <> r.path_value "attribute"
            <> "' for user '"
            <> r.path_value "username"
            <> "'")))
