-- ===== src/LdapClient/Provision/Refinement.antt =====
-- `CreateUserWithGroups` and its specification on the directory.
use portal_conductor.Base.{
  String, ◌==◌, ◌≡◌, refl, sym, ◌∙◌, Bool, true, false, Option, none, some, [], ◌∷◌, Bool-cases,
  inl, inr, if◌then◌else◌,
}
use portal_conductor.External.Effect.{ok, pure, for_each}
use portal_conductor.External.Effect.Triple.{
  Triple, Triple-weaken, Triple-bind, Triple-pure, Triple-ok,
}
use portal_conductor.Kinds.{CreateUserRequest}
use portal_conductor.LdapClient.{Server, Client, Entry}
use portal_conductor.LdapClient.Users.{days_since_epoch, add_user_to_group}
use portal_conductor.LdapClient.Provision.{ensure_in_group, ensure_entry, create_user_with_groups}
use portal_conductor.LdapClient.Directory.{
  Directory, IsDirectory, enroll, admit, admit_member, enroll_user, join_group, provisioned,
}
use portal_conductor.LdapClient.Membership.{
  Anything, Found, Triple-get_user, Triple-user_in_group, Triple-add_user_to_group,
  Triple-create_user, Triple-change_password,
}

module _ {W Conn : Type 0} (S : Server W Conn) (c : Client) (view : W → Directory)
    (I : IsDirectory S c view) where
  -- What the test of the membership leads to.
  Triple-add_unless_member :
      (u g : String) (d : Directory) (b : Bool)
      → Triple
          (λ w. (b ≡ d.member u g) × (view w ≡ d))
          (if b then pure tt else add_user_to_group S c u g)
          (λ _ w. view w ≡ admit u g d)
          Anything
  Triple-add_unless_member u g d true =
      Triple-pure tt (λ w h. h.1 ∙ sym (admit_member u g d (sym h.0)))
  Triple-add_unless_member u g d false =
      Triple-weaken (λ w h. h.1) (λ a w h. h) (λ e w h. tt)
        (Triple-add_user_to_group S c view I u g d)

  Triple-ensure_in_group :
      (u g : String) (d : Directory)
      → Triple
          (λ w. view w ≡ d)
          (ensure_in_group S c u g)
          (λ _ w. view w ≡ join_group u g d)
          Anything
  unfolding ensure_in_group
  Triple-ensure_in_group u g d = elim (Bool-cases (g == "")) [
    | inl e ↦ rw (e, ensure_in_group) (Triple-pure tt (λ w h. h))
    | inr e ↦
        rw (e, ensure_in_group)
          (Triple-bind _ _ _ (Triple-user_in_group S c view I u g d)
            (Triple-add_unless_member u g d))
  ]

  Triple-days :
      (d : Directory) → Triple (λ w. view w ≡ d) (days_since_epoch S c) (λ _ w. view w ≡ d) Anything
  unfolding days_since_epoch
  Triple-days d = record { run = λ w h. h }

  Triple-ensure_entry :
      (user : CreateUserRequest) (d : Directory) (o : Option Entry)
      → Triple
          (λ w. Found S c view I o (d.has_user user.username) × (view w ≡ d))
          (ensure_entry S c user o)
          (λ _ w. view w ≡ enroll user.username d)
          Anything
  unfolding ensure_entry
  Triple-ensure_entry user d (some e) =
      Triple-pure tt (λ w h. h.1 ∙ sym (enroll_user user.username d h.0))
  Triple-ensure_entry user d none =
      Triple-weaken (λ w h. h.1) (λ a w h. h) (λ e w h. tt)
        (Triple-bind _ _ _ (Triple-days d) λ days.
          Triple-bind _ _ _ (Triple-create_user S c view I days user d)
            λ _. Triple-change_password S c view I user.username user.password _)

  Triple-groups :
      (u everyone community : String) (d : Directory)
      → Triple
          (λ w. view w ≡ d)
          (for_each (ensure_in_group S c u) (everyone ∷ community ∷ []))
          (λ _ w. view w ≡ join_group u community (join_group u everyone d))
          Anything
  unfolding for_each
  Triple-groups u everyone community d =
      Triple-bind _ _ _ (Triple-ensure_in_group u everyone d)
        λ _. Triple-bind _ _ _ (Triple-ensure_in_group u community _) λ _. Triple-pure tt (λ w h. h)

  Triple-create_user_with_groups :
      (user : CreateUserRequest) (everyone community : String) (d : Directory)
      → Triple
          (λ w. view w ≡ d)
          (create_user_with_groups S c user everyone community)
          (λ _ w. view w ≡ provisioned user.username everyone community d)
          Anything
  unfolding create_user_with_groups
  Triple-create_user_with_groups user everyone community d =
      Triple-bind _ _ _ (Triple-get_user S c view I user.username d) λ o.
        Triple-bind _ _ _ (Triple-ensure_entry user d o)
          λ _. Triple-groups user.username everyone community _

  -- On a lawful directory, a successful call leaves the user with an entry and in both groups that
  -- are named, and changes nothing else, whether or not the entry or a membership was there before.
  pub create_user_with_groups-provisioned :
      (user : CreateUserRequest) (everyone community : String) (w : W)
      → (create_user_with_groups S c user everyone community w).0 ≡ ok tt
      → view (create_user_with_groups S c user everyone community w).1
        ≡ provisioned user.username everyone community (view w)
  create_user_with_groups-provisioned user everyone community w e =
      Triple-ok (Triple-create_user_with_groups user everyone community (view w)) w refl e
