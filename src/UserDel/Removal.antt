-- ===== src/UserDel/Removal.antt =====
-- `FromLDAP` on a directory.
use mathlib.Core.Path.{fun_ext}
use portal_conductor.Base.{
  String, ◌==◌, ◌≡◌, refl, sym, ap, ◌∙◌, Bool, true, false, not, ◌&&◌, Option, none, some, List, [],
  ◌∷◌, arith, eq_iff, Bool-cases, inl, inr, if◌then◌else◌,
}
use portal_conductor.External.Effect.{ok, when, for_each, ◌>>◌}
use portal_conductor.External.Effect.Triple.{
  Triple, Triple-weaken, Triple-bind, Triple-pure, Triple-ok,
}
use portal_conductor.LdapClient.{Server, Client, Entry, Group}
use portal_conductor.LdapClient.Attributes.{first_value}
use portal_conductor.LdapClient
use portal_conductor.LdapClient.Users.{named}
use portal_conductor.LdapClient.Directory.{Directory, IsDirectory, expel, dismiss}
use portal_conductor.LdapClient.Membership.{
  Anything, Found, Triple-get_user, Triple-get_user_groups, Triple-remove_user_from_group,
  Triple-delete_user,
}
use portal_conductor.UserDel.{from_ldap, leave_group, leave_named, remove_entry}

-- The specification: out of every group, and then without an entry.
abbrev pub leave_all : String → Directory → Directory
leave_all u d = record d { member = λ v g. if v == u then false else d.member v g }

abbrev pub removed : String → Directory → Directory
removed u d = if d.has_user u then expel u (leave_all u d) else d

removed_absent : (u : String) (d : Directory) → d.has_user u ≡ false → removed u d ≡ d
removed_absent u d h = rw h refl

removed_present :
    (u : String) (d : Directory) → d.has_user u ≡ true → removed u d ≡ expel u (leave_all u d)
removed_present u d h = rw h refl

abbrev dismiss_named : String → Option String → Directory → Directory
dismiss_named u none d = d
dismiss_named u (some g) d = dismiss u g d

-- The groups of the list, one after another.
abbrev dismiss_each : String → List Group → Directory → Directory
dismiss_each u [] d = d
dismiss_each u (g ∷ gs) d = dismiss_each u gs (dismiss_named u (first_value g.attrs "cn") d)

abbrev has_cn : String → Option String → Bool
has_cn k none = false
has_cn k (some cn) = cn == k

-- Out of the groups of the list, and of no other; the rest stays.
dismiss_each-member :
    (u : String) (gs : List Group) (d : Directory) (v k : String)
    → (dismiss_each u gs d).member v k ≡ (if (v == u) && named k gs then false else d.member v k)
dismiss_each-member u [] d v k = ground (arith, eq_iff v u)
dismiss_each-member u (g ∷ gs) d v k =
    first (λ e. dismiss_each-member u gs e v k) (first_value g.attrs "cn")
  where
    first :
        ((e : Directory)
          → (dismiss_each u gs e).member v k
            ≡ (if (v == u) && named k gs then false else e.member v k))
        → (o : Option String)
        → (dismiss_each u gs (dismiss_named u o d)).member v k ≡ (
            if (v == u)
              && (if elim o [ some cn ↦ cn == k | none ↦ false ] then true else named k gs)
            then false
            else d.member v k)
    first rest none = rest d
    first rest (some cn) =
        rest (dismiss u cn d) ∙ ground (arith, eq_iff v u, eq_iff k cn, eq_iff cn k)

dismiss_each-has_user :
    (u : String) (gs : List Group) (d : Directory) → (dismiss_each u gs d).has_user ≡ d.has_user
dismiss_each-has_user u [] d = refl
dismiss_each-has_user u (g ∷ gs) d = first (dismiss_each-has_user u gs) (first_value g.attrs "cn")
  where
    first :
        ((e : Directory) → (dismiss_each u gs e).has_user ≡ e.has_user)
        → (o : Option String) → (dismiss_each u gs (dismiss_named u o d)).has_user ≡ d.has_user
    first rest none = rest d
    first rest (some cn) = rest (dismiss u cn d)

none_left : (a b : Bool) → a ≡ b → (if a then false else b) ≡ false
none_left true b h = refl
none_left false b h = sym h

-- Where the list names all the groups of the user, nothing is left.
dismiss_each-all :
    (u : String) (gs : List Group) (d : Directory)
    → ((k : String) → named k gs ≡ d.member u k)
    → dismiss_each u gs d ≡ leave_all u d
dismiss_each-all u gs d h =
    λ i. record { has_user = dismiss_each-has_user u gs d i; member = members i }
  where
    -- The list has the memberships that are taken away.
    all :
        (v k : String)
        → (if (v == u) && named k gs then false else d.member v k)
          ≡ (if v == u then false else d.member v k)
    all v k = elim (Bool-cases (v == u)) [
      | inl e ↦ rw e (none_left _ _ (h k ∙ ap (λ z. d.member z k) (sym ((eq_iff v u).0 e))))
      | inr e ↦ rw e refl
    ]

    members : (dismiss_each u gs d).member ≡ (leave_all u d).member
    members = fun_ext λ v. fun_ext λ k. dismiss_each-member u gs d v k ∙ all v k

module _ {W Conn : Type 0} (S : Server W Conn) (c : Client) (view : W → Directory)
    (I : IsDirectory S c view) where
  Triple-leave_named :
      (u : String) (o : Option String) (d : Directory)
      → Triple
          (λ w. view w ≡ d)
          (leave_named S c u false o)
          (λ _ w. view w ≡ dismiss_named u o d)
          Anything
  unfolding when
  Triple-leave_named u none d = Triple-pure tt (λ w h. h)
  Triple-leave_named u (some g) d = Triple-remove_user_from_group S c view I u g d

  Triple-leave_each :
      (u : String) (gs : List Group) (d : Directory)
      → Triple
          (λ w. view w ≡ d)
          (for_each (leave_group S c u false) gs)
          (λ _ w. view w ≡ dismiss_each u gs d)
          Anything
  unfolding for_each leave_group
  Triple-leave_each u [] d = Triple-pure tt (λ w h. h)
  Triple-leave_each u (g ∷ gs) d =
      Triple-bind _ _ _ (Triple-leave_named u (first_value g.attrs "cn") d)
        (λ _. Triple-leave_each u gs _)

  -- The groups, and then the entry.
  Triple-leave :
      (u : String) (gs : List Group) (d : Directory)
      → d.has_user u ≡ true
      → ((k : String) → named k gs ≡ d.member u k)
      → Triple
          (λ w. view w ≡ d)
          (do
            for_each (leave_group S c u false) gs
            when (not false) (LdapClient.Users.delete_user S c u))
          (λ _ w. view w ≡ removed u d)
          Anything
  unfolding when
  Triple-leave u gs d there h = Triple-bind _ _ _ (Triple-leave_each u gs d) (λ _.
      Triple-weaken (λ w k. k)
        (λ a w k. k ∙ ap (expel u) (dismiss_each-all u gs d h) ∙ sym (removed_present u d there))
        (λ e w k. tt) (Triple-delete_user S c view I u _))

  Triple-remove_entry :
      (u : String) (d : Directory) (o : Option Entry)
      → Triple
          (λ w. Found S c view I o (d.has_user u) × (view w ≡ d))
          (remove_entry S c u false o)
          (λ _ w. view w ≡ removed u d)
          Anything
  unfolding remove_entry
  Triple-remove_entry u d none = Triple-pure tt (λ w h. h.1 ∙ sym (removed_absent u d h.0))
  Triple-remove_entry u d (some entry) = record {
    run = λ w h.
        (Triple-bind _ _ _ (Triple-get_user_groups S c view I u d)
            (λ gs. record { run = λ v k. (Triple-leave u gs d h.0 k.0).run v k.1 })).run
          w h.1;
  }

  Triple-from_ldap :
      (u : String) (d : Directory)
      → Triple (λ w. view w ≡ d) (from_ldap S c u false) (λ _ w. view w ≡ removed u d) Anything
  unfolding from_ldap
  Triple-from_ldap u d =
      Triple-bind _ _ _ (Triple-get_user S c view I u d) (Triple-remove_entry u d)

  -- On a lawful directory, a successful run that is not dry leaves a user that has an entry without
  -- it and in no group, and changes nothing else; where there is no entry it changes nothing.
  pub from_ldap-removed :
      (u : String) (w : W)
      → (from_ldap S c u false w).0 ≡ ok tt
      → view (from_ldap S c u false w).1 ≡ removed u (view w)
  from_ldap-removed u w e = Triple-ok (Triple-from_ldap u (view w)) w refl e
