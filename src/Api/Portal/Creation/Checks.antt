-- ===== src/Api/Portal/Creation/Checks.antt =====
-- The endpoint that validates a name and the checks of a registration.
use portal_conductor.Base.{String, ◌≡◌, refl, sym, ap, ◌∙◌, Bool, true, false, none, if◌then◌else◌}
use portal_conductor.Config.{Config}
use portal_conductor.External.{Error}
use portal_conductor.External.Effect.{ok, Call, pure, fail, context, ◌>>=◌}
use portal_conductor.External.Effect.Triple.{
  Triple, Triple-intro, Triple-bind, Triple-pure, Triple-fail, Triple-if, Triple-ok,
}
use portal_conductor.Kinds.{PortalCreateUserRequest}
use portal_conductor.LdapClient
use portal_conductor.DataStore.{DataStore}
use portal_conductor.PortalDb.{Database, ExistsQuery}
use portal_conductor.PortalDb.Accounts.{
  user_exists_by_username, is_restricted_username, email_exists,
}
use portal_conductor.Api.Portal.{username_valid, validate_username, verdict}
use portal_conductor.Api.Portal.Creation.{Services, check_request, reject_if}

module _ {W Conn Fs Tx : Type 0} (S : Services W Conn Fs) (cfg : Config) (db : Database W Tx)
    (R : (q : ExistsQuery) (s : String) (w : W) → (db.select_exists q s w).1 ≡ w)
    (ldap : LdapClient.Client) (ds : DataStore) where
  abbrev Anything : Error → W → Type 0
  Anything e v = true ≡ true

  -- What a look-up answers, in a world that it leaves as it is.
  Triple-asked :
      (m : Call W Bool) (w : W)
      → (m w).1 ≡ w
      → Triple (λ v. v ≡ w) m (λ b v. ((m w).0 ≡ ok b) × (v ≡ w)) Anything
  Triple-asked m w k =
      Triple-intro m (λ v e b h. (ap (λ x. (m x).0) (sym e) ∙ h, ap (λ x. (m x).1) e ∙ k))
        (λ v e x h. refl)

  -- A statement that does not depend on the call.
  Triple-of_done :
      {P : W → Type 0} {A : Type 0} {F : Type 0} (m : Call W A) → F → Triple P m (λ _ _. F) Anything
  Triple-of_done m f = Triple-intro m (λ w h a e. f) (λ w h x e. refl)

  restricted : String → Call W Bool
  restricted u = context "checking restricted username" (is_restricted_username db u)

  taken : String → Call W Bool
  taken u = context "checking user existence" (user_exists_by_username db u)

  in_use : String → Call W Bool
  in_use email = context "checking email existence" (email_exists db email)

  world-restricted : (u : String) (w : W) → (restricted u w).1 ≡ w
  unfolding restricted is_restricted_username context
  world-restricted u w = R _ _ w

  world-taken : (u : String) (w : W) → (taken u w).1 ≡ w
  unfolding taken user_exists_by_username context
  world-taken u w = R _ _ w

  -- A fact that a call has established, for what follows.
  with_fact :
      {F : Type 0} {A : Type 0} {m : Call W A} {Q : A → W → Type 0} (w : W)
      → (F → Triple (λ v. v ≡ w) m Q Anything)
      → Triple (λ v. F × (v ≡ w)) m Q Anything
  with_fact w t = record { run = λ v h. (t h.0).run v h.1 }

  Triple-rejected :
      (b : Bool) (reason : String) (w : W)
      → Triple
          (λ v. v ≡ w)
          (reject_if S cfg db ldap ds b reason)
          (λ _ v. (b ≡ false) × (v ≡ w))
          Anything
  Triple-rejected b reason w =
      Triple-if b _ _ (λ e. Triple-fail _ (λ v h. refl)) (λ e. Triple-pure tt (λ v h. (e, h)))

  Triple-required :
      (b : Bool) (x : Error) (w : W)
      → Triple (λ v. v ≡ w) (if b then pure tt else fail x) (λ _ v. (b ≡ true) × (v ≡ w)) Anything
  Triple-required b x w =
      Triple-if b _ _ (λ e. Triple-pure tt (λ v h. (e, h))) (λ e. Triple-fail _ (λ v h. refl))

  -- What the validation endpoint answers for a name that passes its three tests.
  valid_verdict :
      (u : String) (w : W)
      → username_valid u ≡ true
      → (restricted u w).0 ≡ ok false
      → (taken u w).0 ≡ ok false
      → (validate_username u db w).0 ≡ ok (verdict u none)
  unfolding ◌>>=◌ pure restricted taken
  valid_verdict u w f r e = rw (f, r, world_of, e) refl
    where
      world_of : (context "checking restricted username" (is_restricted_username db u) w).1 ≡ w
      world_of = world-restricted u w

  Triple-check_request :
      (req : PortalCreateUserRequest) (w : W)
      → Triple
          (λ v. v ≡ w)
          (check_request S cfg db ldap ds req)
          (λ _ v. (validate_username req.username db w).0 ≡ ok (verdict req.username none))
          Anything
  unfolding check_request restricted taken in_use
  Triple-check_request req w = Triple-bind _ _ _ (Triple-required _ _ w) λ _. with_fact w λ f.
      Triple-bind _ _ _ (Triple-required _ _ w) λ _. with_fact w λ _.
        Triple-bind _ _ _
          (Triple-asked (restricted req.username) w (world-restricted req.username w))
          λ b. with_fact w λ r. Triple-bind _ _ _ (Triple-rejected b _ w) λ _. with_fact w λ bf.
            Triple-bind _ _ _ (Triple-asked (taken req.username) w (world-taken req.username w))
              λ t. with_fact w λ e. Triple-bind _ _ _ (Triple-rejected t _ w) λ _. with_fact w λ tf.
                Triple-of_done _ (valid_verdict req.username w f (r ∙ ap ok bf) (e ∙ ap ok tf))

  -- A request that passes the checks of the registration has a name that the validation endpoint, in
  -- the same state, calls valid, where look-ups do not change the state.
  pub check_request-valid :
      (req : PortalCreateUserRequest) (w : W)
      → (check_request S cfg db ldap ds req w).0 ≡ ok tt
      → (validate_username req.username db w).0 ≡ ok (verdict req.username none)
  check_request-valid req w h = Triple-ok (Triple-check_request req w) w refl h
