-- ===== src/LdapClient/Directory.antt =====
-- What an LDAP directory is to the client: who has an entry, who is listed in which group. The laws
-- say what a server answers and how its successful writes change the directory.
use mathlib.Core.Path.{fun_ext}
use portal_conductor.Base.{
  String, ◌==◌, ◌≡◌, ◌∙◌, Bool, true, false, not, ◌&&◌, ◌||◌, contains, List, [], ◌∷◌, is_empty,
  eq_iff, arith, if◌then◌else◌,
}
use portal_conductor.External.Effect.{ok}
use portal_conductor.LdapClient.{Server, Client, SearchRequest, add_values, delete_values}
use portal_conductor.LdapClient.Frame.{ReadsKeep}
use portal_conductor.LdapClient.Attributes.{entries_to_groups}
use portal_conductor.LdapClient.Connection.{user_dn, group_dn}
use portal_conductor.LdapClient.Users.{default_group_attrs, user_filter, member_filter, named}

pub record Directory : Type 0 where
  pub has_user : String → Bool
  pub member : String → String → Bool  -- user, group

abbrev pub enroll : String → Directory → Directory
enroll u d = record d { has_user = λ v. if v == u then true else d.has_user v }

abbrev pub expel : String → Directory → Directory
expel u d = record d { has_user = λ v. if v == u then false else d.has_user v }

abbrev pub admit : String → String → Directory → Directory
admit u g d = record d { member = λ v h. if (v == u) && (h == g) then true else d.member v h }

abbrev pub dismiss : String → String → Directory → Directory
dismiss u g d = record d { member = λ v h. if (v == u) && (h == g) then false else d.member v h }

-- The attribute is there with the value.
abbrev pub has_value : String → String → List (String × List String) → Bool
has_value name value [] = false
has_value name value (attr ∷ attrs) =
    ((attr.0 == name) && contains attr.1 value) || has_value name value attrs

-- A server whose world shows a directory. An entry that is added is one of a user, as the searches find
-- them, where it has the class `posixAccount` and the user's `uid`. Groups are told apart by their first `cn`. Nothing is
-- said of a call that fails.
pub record IsDirectory {W Conn : Type 0} (S : Server W Conn) (c : Client) (view : W → Directory)
    : Type 0 where
  pub dial_keeps : (url : String) (w : W) → view (S.dial_url url w).1 ≡ view w
  pub bind_keeps : (conn : Conn) (dn pw : String) (w : W) → view (S.bind conn dn pw w).1 ≡ view w
  pub close_keeps : (conn : Conn) (w : W) → view (S.close conn w) ≡ view w
  pub search_keeps : (conn : Conn) (r : SearchRequest) (w : W) → view (S.search conn r w).1 ≡ view w
  pub search_user :
      (conn : Conn) (u : String) (w : W) {es : List _}
      → (S.search conn
          (record { base_dn = c.base_dn; filter = user_filter S c u; attributes = [] })
          w).0
        ≡ ok es
      → is_empty es ≡ not ((view w).has_user u)
  pub search_groups :
      (conn : Conn) (u g : String) (w : W) {es : List _}
      → (S.search conn
          (record {
            base_dn = c.base_dn;
            filter = member_filter S c u;
            attributes = default_group_attrs;
          })
          w).0
        ≡ ok es
      → named g (entries_to_groups es) ≡ (view w).member u g
  pub add_enrolls :
      (conn : Conn) (u : String) (attrs : List (String × List String)) (w : W)
      → has_value "objectClass" "posixAccount" attrs ≡ true
      → has_value "uid" u attrs ≡ true
      → (S.add conn (record { dn = user_dn S c u; attributes = attrs }) w).0 ≡ ok tt
      → view (S.add conn (record { dn = user_dn S c u; attributes = attrs }) w).1
        ≡ enroll u (view w)
  pub modify_admits :
      (conn : Conn) (u g : String) (w : W)
      → (S.modify conn
          (record { dn = group_dn S c g; changes = add_values "memberUid" (u ∷ []) ∷ [] })
          w).0
        ≡ ok tt
      → view
          (S.modify conn
            (record { dn = group_dn S c g; changes = add_values "memberUid" (u ∷ []) ∷ [] })
            w).1
        ≡ admit u g (view w)
  pub modify_dismisses :
      (conn : Conn) (u g : String) (w : W)
      → (S.modify conn
          (record { dn = group_dn S c g; changes = delete_values "memberUid" (u ∷ []) ∷ [] })
          w).0
        ≡ ok tt
      → view
          (S.modify conn
            (record { dn = group_dn S c g; changes = delete_values "memberUid" (u ∷ []) ∷ [] })
            w).1
        ≡ dismiss u g (view w)
  pub del_expels :
      (conn : Conn) (u : String) (w : W)
      → (S.del conn (user_dn S c u) w).0 ≡ ok tt
      → view (S.del conn (user_dn S c u) w).1 ≡ expel u (view w)
  pub password_keeps :
      (conn : Conn) (u old new : String) (w : W)
      → view (S.password_modify conn (user_dn S c u) old new w).1 ≡ view w

-- Admitting a member changes nothing.
pub admit_member : (u g : String) (d : Directory) → d.member u g ≡ true → admit u g d ≡ d
admit_member u g d h = λ i. record { has_user = d.has_user; member = same i }
  where
    same : (admit u g d).member ≡ d.member
    same = fun_ext λ v. fun_ext λ k. ground (arith, eq_iff v u, eq_iff k g)

-- Enrolling a user that has an entry changes nothing.
pub enroll_user : (u : String) (d : Directory) → d.has_user u ≡ true → enroll u d ≡ d
enroll_user u d h = λ i. record { has_user = same i; member = d.member }
  where
    same : (enroll u d).has_user ≡ d.has_user
    same = fun_ext λ v. ground (arith, eq_iff v u)

-- Joining a group, where the name of a group is given.
abbrev pub join_group : String → String → Directory → Directory
join_group u g d = if g == "" then d else admit u g d

-- The specification of `CreateUserWithGroups`.
abbrev pub provisioned : String → String → String → Directory → Directory
provisioned u everyone community d = join_group u community (join_group u everyone (enroll u d))

module _ {W Conn : Type 0} (S : Server W Conn) (c : Client) (view : W → Directory)
    (I : IsDirectory S c view) where
  -- The reads of the server keep the directory as it is.
  pub reads_keep_view : (d : Directory) → ReadsKeep S (λ w. view w ≡ d)
  reads_keep_view d = record {
    dial_keeps = λ url. record { after = λ w h. I.dial_keeps url w ∙ h };
    bind_keeps = λ conn dn pw. record { after = λ w h. I.bind_keeps conn dn pw w ∙ h };
    close_keeps = λ conn w h. I.close_keeps conn w ∙ h;
    search_keeps = λ conn r. record { after = λ w h. I.search_keeps conn r w ∙ h };
  }
