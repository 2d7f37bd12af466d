-- ===== src/Examples/Ldap.antt =====
-- An LDAP server in memory, which satisfies the laws of a directory.
use Prim.Native.String.{len, slice}
use mathlib.Core.Path.{fun_ext}
use text.Mathlib.TextPositions.{len-append, slice-append_middle}
use portal_conductor.Base.{
  ◌+◌, ◌-◌, String, ◌<>◌, ◌==◌, ◌≡◌, refl, sym, ap, ◌∙◌, Bool, true, false, not, List, [], ◌∷◌, map,
  keep, contains, is_empty, arith, eq_iff, Bool-cases, inl, inr, if◌then◌else◌,
}
use portal_conductor.Base.Int.{pos}
use portal_conductor.External.Effect.{Result, ok}
use portal_conductor.LdapClient.{
  Server, Client, Entry, SearchRequest, Change, add_values, delete_values, replace_values,
}
use portal_conductor.LdapClient.Connection.{user_dn, group_dn}
use portal_conductor.LdapClient.Attributes.{entries_to_groups}
use portal_conductor.LdapClient.Users.{named}
use portal_conductor.LdapClient.Directory.{Directory, IsDirectory, admit, dismiss}
use portal_conductor.Examples.World.{World}

-- What stands between a beginning and an end of given lengths.
abbrev between : String → String → String → String
between p q s = slice s (len p) (len p + (len s - len p - len q))

between-append : (p u q : String) → between p q (p <> (u <> q)) ≡ u
between-append p u q =
    ap (λ n. slice (p <> (u <> q)) (len p) (len p + n)) lengths ∙ slice-append_middle p u q
  where
    lengths : len (p <> (u <> q)) - len p - len q ≡ len u
    lengths = rw (len-append p (u <> q), len-append u q) (omega arith)

abbrev pub client : Client
client = record { url = "ldap://h"; bind_dn = "cn=m"; bind_password = "pw"; base_dn = "dc=example" }

abbrev group_entry : String → Entry
group_entry g = record { dn = "cn=" <> g; attributes = ("cn", g ∷ []) ∷ [] }

abbrev user_of_dn : String → String
user_of_dn = between "uid=" ",ou=People,dc=example"

abbrev group_of_dn : String → String
group_of_dn = between "cn=" ",ou=Groups,dc=example"

abbrev user_of_filter : String → String
user_of_filter = between "(&(objectClass=posixAccount)(uid=" "))"

abbrev member_of_filter : String → String
member_of_filter = between "(&(objectClass=posixGroup)(memberUid=" "))"

abbrev enrolled : String → World → World
enrolled u w = record w { has_entry = λ v. if v == u then true else w.has_entry v }

abbrev expelled : String → World → World
expelled u w = record w { has_entry = λ v. if v == u then false else w.has_entry v }

abbrev joined : String → String → World → World
joined u g w = record w { groups_of = λ v. if v == u then g ∷ w.groups_of v else w.groups_of v }

abbrev left : String → String → World → World
left u g w = record w {
  groups_of = λ v. if v == u then keep (λ h. not (h == g)) (w.groups_of v) else w.groups_of v;
}

-- A search without attributes is for a user, any other one for groups.
abbrev found : SearchRequest → World → List Entry
found r w =
    if is_empty r.attributes
    then (if w.has_entry (user_of_filter r.filter) then group_entry "entry" ∷ [] else [])
    else map group_entry (w.groups_of (member_of_filter r.filter))

abbrev modified : String → List Change → World → World
modified g (add_values attr (u ∷ []) ∷ []) w = joined u g w
modified g (delete_values attr (u ∷ []) ∷ []) w = left u g w
modified g _ w = w

pub modified_rows : (g : String) (cs : List Change) (w : World) → (modified g cs w).rows ≡ w.rows
modified_rows g [] w = refl
modified_rows g (add_values a [] ∷ cs) w = refl
modified_rows g (add_values a (u ∷ []) ∷ []) w = refl
modified_rows g (add_values a (u ∷ []) ∷ c ∷ cs) w = refl
modified_rows g (add_values a (u ∷ v ∷ us) ∷ cs) w = refl
modified_rows g (delete_values a [] ∷ cs) w = refl
modified_rows g (delete_values a (u ∷ []) ∷ []) w = refl
modified_rows g (delete_values a (u ∷ []) ∷ c ∷ cs) w = refl
modified_rows g (delete_values a (u ∷ v ∷ us) ∷ cs) w = refl
modified_rows g (replace_values a vs ∷ cs) w = refl

abbrev pub server : Server World Unit
server = record {
  dial_url = λ url w. (ok tt, w);
  bind = λ conn dn pw w. (ok tt, w);
  close = λ conn w. w;
  search = λ conn r w. (ok (found r w), w);
  add = λ conn r w. (ok tt, enrolled (user_of_dn r.dn) w);
  modify = λ conn r w. (ok tt, modified (group_of_dn r.dn) r.changes w);
  del = λ conn dn w. (ok tt, expelled (user_of_dn dn) w);
  password_modify = λ conn dn old new w. (ok tt, w);
  escape_dn = λ s. s;
  escape_filter = λ s. s;
  since_epoch = λ w. pos 1_700_000_000_000_000_000;
}

abbrev pub view : World → Directory
view w = record { has_user = w.has_entry; member = λ u g. contains (w.groups_of u) g }

named-groups :
    (g : String) (gs : List String)
    → named g (entries_to_groups (map group_entry gs)) ≡ contains gs g
named-groups g [] = refl
named-groups g (h ∷ gs) = elim (Bool-cases (h == g)) [
  | inl e ↦ rw e refl
  | inr e ↦ rw e (named-groups g gs)
]

contains-keep :
    (g k : String) (gs : List String)
    → contains (keep (λ h. not (h == g)) gs) k ≡ (if k == g then false else contains gs k)
contains-keep g k [] = ground arith
contains-keep g k (h ∷ gs) = elim (Bool-cases (h == g)) [
  | inl e ↦ rw e (contains-keep g k gs ∙ ground (arith, eq_iff h g, eq_iff k g, eq_iff h k))
  | inr e ↦ rw (e, contains-keep g k gs) (ground (arith, eq_iff h g, eq_iff k g, eq_iff h k))
]

empty_of :
    (b : Bool) (x : Entry) (es : List Entry)
    → Path (Result (List Entry)) (ok (if b then x ∷ [] else [])) (ok es)
    → is_empty es ≡ not b
empty_of true x [] h = cc
empty_of true x (e ∷ es) h = refl
empty_of false x [] h = refl
empty_of false x (e ∷ es) h = cc

named_of :
    (g : String) (gs : List String) (es : List Entry)
    → Path (Result (List Entry)) (ok (map group_entry gs)) (ok es)
    → named g (entries_to_groups es) ≡ contains gs g
named_of g gs es h = rw (sym (same h)) (named-groups g gs)
  where
    same : Path (Result (List Entry)) (ok (map group_entry gs)) (ok es) → map group_entry gs ≡ es
    same k = cc

view-joined : (u g : String) (w : World) → view (joined u g w) ≡ admit u g (view w)
view-joined u g w = λ i. record { has_user = w.has_entry; member = members i }
  where
    members : (view (joined u g w)).member ≡ (admit u g (view w)).member
    members = fun_ext λ v. fun_ext λ h. elim (Bool-cases (v == u)) [
      | inl e ↦ rw e (ground (arith, eq_iff g h, eq_iff h g))
      | inr e ↦ rw e refl
    ]

view-left : (u g : String) (w : World) → view (left u g w) ≡ dismiss u g (view w)
view-left u g w = λ i. record { has_user = w.has_entry; member = members i }
  where
    members : (view (left u g w)).member ≡ (dismiss u g (view w)).member
    members = fun_ext λ v. fun_ext λ h. elim (Bool-cases (v == u)) [
      | inl e ↦ rw e (contains-keep g h (w.groups_of v))
      | inr e ↦ rw e refl
    ]

pub is_directory : IsDirectory server client view
unfolding user_dn group_dn
is_directory = record {
  dial_keeps = λ url w. refl;
  bind_keeps = λ conn dn pw w. refl;
  close_keeps = λ conn w. refl;
  search_keeps = λ conn r w. refl;
  search_user = λ conn u w e. empty_of _ _ _ (
      ap (λ v. ok (if w.has_entry v then group_entry "entry" ∷ [] else []))
        (sym (between-append "(&(objectClass=posixAccount)(uid=" u "))"))
      ∙ e);
  search_groups = λ conn u g w e. named_of g _ _ (
      ap (λ v. ok (map group_entry (w.groups_of v)))
        (sym (between-append "(&(objectClass=posixGroup)(memberUid=" u "))"))
      ∙ e);
  add_enrolls = λ conn u attrs w posix uid e.
      ap (λ v. view (enrolled v w)) (between-append "uid=" u ",ou=People,dc=example");
  modify_admits = λ conn u g w e.
      ap (λ k. view (joined u k w)) (between-append "cn=" g ",ou=Groups,dc=example")
      ∙ view-joined u g w;
  modify_dismisses = λ conn u g w e.
      ap (λ k. view (left u k w)) (between-append "cn=" g ",ou=Groups,dc=example")
      ∙ view-left u g w;
  del_expels =
      λ conn u w e. ap (λ v. view (expelled v w)) (between-append "uid=" u ",ou=People,dc=example");
  password_keeps = λ conn u old new w. refl;
}
