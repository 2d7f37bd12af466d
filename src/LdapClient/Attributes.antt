-- ===== src/LdapClient/Attributes.antt =====
-- Attributes of entries: `attrsMap`, `entriesToGroups`, and the parsing into response bodies.
use portal_conductor.Base.{
  String, ◌==◌, Option, none, some, List, [], ◌∷◌, map, map_value, if◌then◌else◌,
}
use portal_conductor.Base.Int.{ℤ}
use portal_conductor.Base.Text.{atoi}
use portal_conductor.Kinds.{UserLdapInfo, LdapGroupInfo}
use portal_conductor.LdapClient.{Entry, Group}

-- A Go map of attributes, by the assignments that fill it.
abbrev pub Attrs : Type 0
Attrs = List (String × List String)

abbrev pub attrs_map : Entry → Attrs
attrs_map entry = entry.attributes

abbrev pub entries_to_groups : List Entry → List Group
entries_to_groups = map (λ e. record { dn = e.dn; attrs = attrs_map e })

-- `attrs[name]`: a missing key has no values.
abbrev pub values_of : Attrs → String → List String
values_of attrs name = elim (map_value name attrs) [ some vals ↦ vals | none ↦ [] ]

-- `len(attrs[name]) > 0` and `attrs[name][0]`.
abbrev pub first_of_list : List String → Option String
first_of_list [] = none
first_of_list (v ∷ vs) = some v

abbrev pub first_value : Attrs → String → Option String
first_value attrs name = first_of_list (values_of attrs name)

unfoldable pub str_attr : Attrs → String → Option String
str_attr attrs name = elim (first_value attrs name) [
  | some v ↦ if v == "" then none else some v
  | none ↦ none
]

unfoldable pub int_attr : Attrs → String → Option ℤ
int_attr attrs name = elim (first_value attrs name) [ some v ↦ atoi v | none ↦ none ]

unfoldable pub list_attr : Attrs → String → Option (List String)
list_attr attrs name = elim (values_of attrs name) [ [] ↦ none | v ∷ vs ↦ some (v ∷ vs) ]

unfoldable pub parse_user_attributes : String → Entry → UserLdapInfo
unfolding str_attr int_attr list_attr
parse_user_attributes username entry =
    let attrs = attrs_map entry in
    record {
      username = username;
      uid_number = int_attr attrs "uidNumber";
      gid_number = int_attr attrs "gidNumber";
      given_name = str_attr attrs "givenName";
      surname = str_attr attrs "sn";
      common_name = str_attr attrs "cn";
      email = str_attr attrs "mail";
      department = str_attr attrs "departmentNumber";
      organization = str_attr attrs "o";
      title = str_attr attrs "title";
      home_directory = str_attr attrs "homeDirectory";
      login_shell = str_attr attrs "loginShell";
      shadow_last_change = int_attr attrs "shadowLastChange";
      shadow_min = int_attr attrs "shadowMin";
      shadow_max = int_attr attrs "shadowMax";
      shadow_warning = int_attr attrs "shadowWarning";
      shadow_inactive = int_attr attrs "shadowInactive";
      object_classes = list_attr attrs "objectClass";
    }

abbrev or_empty : Option String → String
or_empty none = ""
or_empty (some s) = s

unfoldable pub parse_group_attributes : Group → LdapGroupInfo
unfolding str_attr int_attr list_attr
parse_group_attributes group = record {
  name = or_empty (str_attr group.attrs "cn");
  gid_number = int_attr group.attrs "gidNumber";
  display_name = str_attr group.attrs "displayName";
  description = str_attr group.attrs "description";
  samba_group_type = int_attr group.attrs "sambaGroupType";
  samba_sid = str_attr group.attrs "sambaSID";
  object_classes = list_attr group.attrs "objectClass";
}
