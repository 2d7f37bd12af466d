-- ===== src/Api/Directory/Endpoints.antt =====
-- The LDAP endpoints on a directory.
use portal_conductor.Base.{String, ◌≡◌, refl, sym, ap, ◌∙◌, Bool, true, false, Option, none, some}
use portal_conductor.Config.{Config}
use portal_conductor.Json.{Json}
use portal_conductor.External.Effect.{ok}
use portal_conductor.External.Effect.Triple.{
  Triple, Triple-weaken, Triple-bind, Triple-pure, Triple-ok,
}
use portal_conductor.LdapClient.{Server, Client, Entry}
use portal_conductor.LdapClient.Directory.{Directory, IsDirectory, admit, admit_member}
use portal_conductor.LdapClient.Membership.{
  Anything, Found, Triple-get_user, Triple-user_in_group, Triple-add_user_to_group,
}
use portal_conductor.Api.{Request, Response, user_exists}
use portal_conductor.Api.Errors.{write_json}
use portal_conductor.Api.Directory.{
  is_some, add_unless_member, add_user_to_ldap_group, check_user_exists_in_ldap,
}

module _ {W Conn : Type 0} (S : Server W Conn) (c : Client) (view : W → Directory)
    (I : IsDirectory S c view) (cfg : Config) (describe : Json → String) where
  Triple-add_unless_member :
      (u g : String) (d : Directory) (b : Bool)
      → Triple
          (λ w. (b ≡ d.member u g) × (view w ≡ d))
          (add_unless_member S c cfg describe u g b)
          (λ _ w. view w ≡ admit u g d)
          Anything
  Triple-add_unless_member u g d true =
      Triple-pure _ (λ w h. h.1 ∙ sym (admit_member u g d (sym h.0)))
  Triple-add_unless_member u g d false =
      Triple-weaken (λ w h. h.1) (λ a w h. h) (λ e w h. tt)
        (Triple-bind _ _ _ (Triple-add_user_to_group S c view I u g d)
          (λ _. Triple-pure _ (λ w h. h)))

  Triple-add_user_to_ldap_group :
      (r : Request) (d : Directory)
      → Triple
          (λ w. view w ≡ d)
          (add_user_to_ldap_group S c cfg describe r)
          (λ _ w. view w ≡ admit (r.path_value "username") (r.path_value "groupname") d)
          Anything
  unfolding add_user_to_ldap_group
  Triple-add_user_to_ldap_group r d =
      Triple-bind _ _ _
        (Triple-user_in_group S c view I (r.path_value "username") (r.path_value "groupname") d)
        λ b.
          Triple-bind _ _ _
            (Triple-add_unless_member (r.path_value "username") (r.path_value "groupname") d b)
            (λ _. Triple-pure _ (λ v h. h))

  -- A success of the endpoint that adds a user to a group leaves the user in the group, member
  -- before or not, and changes nothing else.
  pub add_user_to_ldap_group-admit :
      (r : Request) (w : W) (resp : Response)
      → (add_user_to_ldap_group S c cfg describe r w).0 ≡ ok resp
      → view (add_user_to_ldap_group S c cfg describe r w).1
        ≡ admit (r.path_value "username") (r.path_value "groupname") (view w)
  add_user_to_ldap_group-admit r w resp e =
      Triple-ok (Triple-add_user_to_ldap_group r (view w)) w refl e

  response_of_Found :
      (u : String) (o : Option Entry) (b : Bool)
      → Found S c view I o b
      → write_json 200 (user_exists u (is_some o)) ≡ write_json 200 (user_exists u b)
  response_of_Found u none b h = ap (λ x. write_json 200 (user_exists u x)) (sym h)
  response_of_Found u (some e) b h = ap (λ x. write_json 200 (user_exists u x)) (sym h)

  -- The answer to whether the directory has an entry.
  abbrev pub existence_answer : String → Directory → Response
  existence_answer u d = write_json 200 (user_exists u (d.has_user u))

  Triple-check_user_exists_in_ldap :
      (r : Request) (d : Directory)
      → Triple
          (λ w. view w ≡ d)
          (check_user_exists_in_ldap S c cfg describe r)
          (λ resp w. (resp ≡ existence_answer (r.path_value "username") d) × (view w ≡ d))
          Anything
  unfolding check_user_exists_in_ldap
  Triple-check_user_exists_in_ldap r d =
      Triple-bind _ _ _ (Triple-get_user S c view I (r.path_value "username") d)
        λ o. Triple-pure _ (λ v h. (response_of_Found (r.path_value "username") o _ h.0, h.1))

  -- The endpoint that asks for a user answers whether the directory has the entry, and leaves the
  -- directory as it is.
  pub check_user_exists_in_ldap-has_user :
      (r : Request) (w : W) (resp : Response)
      → (check_user_exists_in_ldap S c cfg describe r w).0 ≡ ok resp
      → (resp ≡ existence_answer (r.path_value "username") (view w))
        × (view (check_user_exists_in_ldap S c cfg describe r w).1 ≡ view w)
  check_user_exists_in_ldap-has_user r w resp e =
      Triple-ok (Triple-check_user_exists_in_ldap r (view w)) w refl e
