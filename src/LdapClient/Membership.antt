-- ===== src/LdapClient/Membership.antt =====
-- The client's operations on a directory, and the steps of the specification.
use portal_conductor.Base.{
  String, ◌≡◌, eq_iff, refl, ap, ◌∙◌, Bool, true, false, not, Option, none, some, List, [], ◌∷◌,
  is_empty,
}
use portal_conductor.External.{Error}
use portal_conductor.External.Effect.{ok, Result, Call, lift}
use portal_conductor.External.Effect.Triple.{
  Triple, Triple-intro, Triple-of_keeps, Triple-weaken, Triple-bind, Triple-deferring, Triple-pure,
  Triple-lift, Ends-intro,
}
use portal_conductor.Base.Int.{ℤ}
use portal_conductor.Kinds.{CreateUserRequest}
use portal_conductor.LdapClient.{Server, Client, Entry}
use portal_conductor.LdapClient.Attributes.{entries_to_groups}
use portal_conductor.LdapClient.Connection.{with_connection, dial, search_entries}
use portal_conductor.LdapClient.Users.{
  get_user, get_user_groups, user_in_group, add_user_to_group, named, first_entry,
  remove_user_from_group, delete_user, change_password, create_user,
}
use portal_conductor.LdapClient.Frame.{Keeps-dial}
use portal_conductor.LdapClient.Directory.{
  Directory, IsDirectory, enroll, expel, admit, dismiss, reads_keep_view,
}

-- Nothing is promised of the world after an error.
abbrev pub Anything : {W : Type 0} → Error → W → Type 0
Anything e w = Unit

module _ {W Conn : Type 0} (S : Server W Conn) (c : Client) (view : W → Directory)
    (I : IsDirectory S c view) where
  abbrev pub Shows : Directory → W → Type 0
  Shows d w = view w ≡ d

  -- A computed result leaves the world alone.
  Triple-result :
      {A : Type 0} (r : Result A) (d : Directory)
      → Triple (Shows d) (lift r) (λ _. Shows d) Anything
  Triple-result r d =
      Triple-lift r (λ w h. Ends-intro (λ _. Shows d) Anything r w (λ a e. h) (λ x e. tt))

  pub Triple-with_connection :
      {A : Type 0} (fn : Conn → Call W A) (d : Directory) (Q : A → Directory → Type 0)
      → ((conn : Conn) → Triple (Shows d) (fn conn) (λ a w. Q a (view w)) Anything)
      → Triple (Shows d) (with_connection S c fn) (λ a w. Q a (view w)) Anything
  unfolding with_connection
  Triple-with_connection fn d Q t =
      Triple-bind (λ _. Shows d) _ _ dials
        λ conn.
          Triple-deferring (S.close conn) (fn conn)
            (Triple-weaken (λ w h. h) (λ a w h. closed conn a w h) (λ e w h. tt) (t conn))
    where
      dials : Triple (Shows d) (dial S c) (λ _. Shows d) Anything
      dials =
          Triple-weaken (λ w h. h) (λ a w h. h) (λ e w h. tt)
            (Triple-of_keeps (Keeps-dial S c (reads_keep_view S c view I d)))

      closed : (conn : Conn) (a : _) (w : W) → Q a (view w) → Q a (view (S.close conn w))
      closed conn a w h = rw (I.close_keeps conn w) h

  pub Triple-get_user_groups :
      (u : String) (d : Directory)
      → Triple
          (Shows d)
          (get_user_groups S c u)
          (λ gs w. ((g : String) → named g gs ≡ d.member u g) × (view w ≡ d))
          Anything
  unfolding get_user_groups search_entries
  Triple-get_user_groups u d =
      Triple-with_connection _ d (λ gs v. ((g : String) → named g gs ≡ d.member u g) × (v ≡ d))
        λ conn.
          Triple-bind
            (λ es w. ((g : String) → named g (entries_to_groups es) ≡ d.member u g) × (view w ≡ d))
            _ _
            (Triple-intro _
              (λ w h es e. (
                (λ g. I.search_groups conn u g w e ∙ ap (λ v. v.member u g) h),
                I.search_keeps conn _ w ∙ h,
              ))
              (λ w h x e. tt))
            (λ es. Triple-pure _ (λ w h. h))

  pub Triple-user_in_group :
      (u g : String) (d : Directory)
      → Triple (Shows d) (user_in_group S c u g) (λ b w. (b ≡ d.member u g) × (view w ≡ d)) Anything
  unfolding user_in_group
  Triple-user_in_group u g d =
      Triple-bind (λ gs w. ((k : String) → named k gs ≡ d.member u k) × (view w ≡ d)) _ _
        (Triple-get_user_groups u d) (λ gs. Triple-pure _ (λ w h. (h.0 g, h.1)))

  -- The one law that a write needs: what it does where it succeeds.
  Triple-write :
      {A : Type 0} (m : Call W A) (d d' : Directory)
      → ((w : W) → view w ≡ d → (a : A) → (m w).0 ≡ ok a → view (m w).1 ≡ d')
      → Triple (Shows d) m (λ _. Shows d') Anything
  Triple-write m d d' h = Triple-intro m h (λ w k e x. tt)

  pub Triple-add_user_to_group :
      (u g : String) (d : Directory)
      → Triple (Shows d) (add_user_to_group S c u g) (λ _. Shows (admit u g d)) Anything
  unfolding add_user_to_group
  Triple-add_user_to_group u g d =
      Triple-with_connection _ d (λ _ v. v ≡ admit u g d)
        λ conn. Triple-write _ d _ (λ w h a e. I.modify_admits conn u g w e ∙ ap (admit u g) h)

  pub Triple-remove_user_from_group :
      (u g : String) (d : Directory)
      → Triple (Shows d) (remove_user_from_group S c u g) (λ _. Shows (dismiss u g d)) Anything
  unfolding remove_user_from_group
  Triple-remove_user_from_group u g d =
      Triple-with_connection _ d (λ _ v. v ≡ dismiss u g d)
        λ conn. Triple-write _ d _ (λ w h a e. I.modify_dismisses conn u g w e ∙ ap (dismiss u g) h)

  pub Triple-delete_user :
      (u : String) (d : Directory)
      → Triple (Shows d) (delete_user S c u) (λ _. Shows (expel u d)) Anything
  unfolding delete_user
  Triple-delete_user u d =
      Triple-with_connection _ d (λ _ v. v ≡ expel u d)
        λ conn. Triple-write _ d _ (λ w h a e. I.del_expels conn u w e ∙ ap (expel u) h)

  pub Triple-change_password :
      (u pw : String) (d : Directory)
      → Triple (Shows d) (change_password S c u pw) (λ _. Shows d) Anything
  unfolding change_password
  Triple-change_password u pw d =
      Triple-with_connection _ d (λ _ v. v ≡ d)
        λ conn. Triple-write _ d _ (λ w h a e. I.password_keeps conn u "" pw w ∙ h)

  pub Triple-create_user :
      (days : ℤ) (user : CreateUserRequest) (d : Directory)
      → Triple (Shows d) (create_user S c days user) (λ _. Shows (enroll user.username d)) Anything
  unfolding create_user
  Triple-create_user days user d =
      Triple-bind (λ _. Shows d) _ _ (Triple-result _ d)
        λ n.
          Triple-bind (λ _. Shows d) _ _ (Triple-result _ d)
            λ _.
              Triple-with_connection _ d (λ _ v. v ≡ enroll user.username d)
                λ conn. Triple-write _ d _ (λ w h a e.
                  I.add_enrolls conn user.username _ w refl
                    (rw ((eq_iff user.username user.username).1 refl) refl) e
                  ∙ ap (enroll user.username) h)

  -- The look-up of an entry says whether there is one.
  abbrev pub Found : Option Entry → Bool → Type 0
  Found none b = b ≡ false
  Found (some e) b = b ≡ true

  pub Triple-get_user :
      (u : String) (d : Directory)
      → Triple (Shows d) (get_user S c u) (λ o w. Found o (d.has_user u) × (view w ≡ d)) Anything
  unfolding get_user search_entries
  Triple-get_user u d =
      Triple-with_connection _ d (λ o v. Found o (d.has_user u) × (v ≡ d))
        λ conn.
          Triple-bind (λ es w. (is_empty es ≡ not (d.has_user u)) × (view w ≡ d)) _ _
            (Triple-intro _
              (λ w h es e. (
                I.search_user conn u w e ∙ ap (λ v. not (v.has_user u)) h,
                I.search_keeps conn _ w ∙ h,
              ))
              (λ w h x e. tt))
            (λ es. Triple-pure _ (λ w h. (found es (d.has_user u) h.0, h.1)))
    where
      found : (es : List Entry) (b : Bool) → is_empty es ≡ not b → Found (first_entry es) b
      found [] true h = cc
      found [] false h = refl
      found (e ∷ es) true h = refl
      found (e ∷ es) false h = cc
