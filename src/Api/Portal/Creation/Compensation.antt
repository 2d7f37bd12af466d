-- ===== src/Api/Portal/Creation/Compensation.antt =====
-- What a registration leaves in the portal database.
use mathlib.Core.Path.{subst}
use portal_conductor.Base.{
  String, ◌≡◌, refl, sym, ◌∙◌, ◌⊎◌, inl, inr, Bool, true, false, Option, none, some,
}
use portal_conductor.Base.Int.{ℤ}
use portal_conductor.Config.{Config}
use portal_conductor.External.{Error, wrap}
use portal_conductor.External.Effect.{Result, ok, err, Call, Done, pure, try, when, ◌>>◌}
use portal_conductor.External.Effect.Keeps.{Keeps, Keeps-context, keeps_rules}
use portal_conductor.External.Effect.Triple.{
  Triple, Ends, Triple-weaken, Triple-of_keeps, Triple-bind, Triple-pure, Triple-fail,
  Triple-context, Triple-attempt, Triple-try, Triple-intro, Triple-ok, Triple-err,
}
use portal_conductor.Kinds.{PortalCreateUserRequest}
use portal_conductor.LdapClient
use portal_conductor.LdapClient.Frame as LdapFrame
use portal_conductor.LdapClient.Provision.Frame.{Keeps-create_user_with_groups}
use portal_conductor.DataStore.{DataStore}
use portal_conductor.LdapClient.Frame.{Keeps-delete_user}
use portal_conductor.DataStore.Frame.{Keeps-create_user_with_permissions}
use portal_conductor.DataStore.Frame as DataStoreFrame
use portal_conductor.Terrain
use portal_conductor.Terrain.Frame as TerrainFrame
use portal_conductor.Terrain.Frame.{Keeps-set_concurrent_job_limits}
use portal_conductor.PortalDb.{Database, ExistsQuery}
use portal_conductor.PortalDb.Tables.{Tables, IsRelational}
use portal_conductor.PortalDb.Accounts.{
  user_exists_by_username, is_restricted_username, email_exists, get_occupation_name,
}
use portal_conductor.PortalDb.Creation.{delete_user_by_id}
use portal_conductor.PortalDb.Creation.Undo.{
  Added, purge-Added, Triple-create_user_with_email, Triple-delete_user_by_id,
}
use portal_conductor.Api.{Response}
use portal_conductor.Api.Portal.Creation.{
  Services, compensate, set_job_limits, created, after_datastore, provision_datastore, after_ldap,
  provision, check_request, password_for, register, user_data,
}

-- Nothing that the registration asks of LDAP, iRODS, Terrain or the random generator changes what
-- `P` is about.
pub record CallsKeep {W Conn Fs : Type 0} (S : Services W Conn Fs) (P : W → Type 0) : Type 0 where
  pub ldap_keeps : LdapFrame.CallsKeep S.ldap_server P
  pub irods_keeps : DataStoreFrame.CallsKeep S.irods_server P
  pub terrain_keeps : TerrainFrame.CallsKeep S.http S.terrain_memory P
  pub random_keeps : Keeps P S.random_password

module _ {W Conn Fs Tx : Type 0} (S : Services W Conn Fs) (cfg : Config) (db : Database W Tx)
    (committed : W → Tables) (pending : Tx → W → Tables) (I : IsRelational db committed pending)
    (K : (t : Tables) → CallsKeep S (λ w. committed w ≡ t)) (ldap : LdapClient.Client)
    (ds : DataStore) (terrain : Option Terrain.Client) (req : PortalCreateUserRequest) where
  abbrev Shows : Tables → W → Type 0
  Shows t w = committed w ≡ t

  -- The response names the id of a row that is new in the tables.
  abbrev pub Registered : Tables → Response → W → Type 0
  Registered t resp w =
      (id : ℤ) × (resp ≡ created S cfg db ldap ds req id) × Added t id (committed w)

  -- A call of another service, whose error is looked at.
  Triple-other :
      {A : Type 0} (m : Call W A) {E : Error → W → Type 0} (u : Tables)
      → Keeps (Shows u) m
      → Triple (Shows u) (try m) (λ _. Shows u) E
  Triple-other m u k = Triple-attempt m (Triple-of_keeps k)

  Triple-delete_ldap :
      (b : Bool) {E : Error → W → Type 0} (u : Tables)
      → Triple
          (Shows u)
          (when b (do try (LdapClient.Users.delete_user S.ldap_server ldap req.username); pure tt))
          (λ _. Shows u)
          E
  unfolding when
  Triple-delete_ldap true u =
      Triple-bind (λ _. Shows u) _ _
        (Triple-other _ u (Keeps-delete_user S.ldap_server ldap ((K u).ldap_keeps) req.username))
        (λ _. Triple-pure tt (λ w h. h))
  Triple-delete_ldap false u = Triple-pure tt (λ w h. h)

  -- The compensation's own deletion has failed, and the rows of the user are all that is left behind.
  abbrev pub LeftBehind : Tables → W → Type 0
  LeftBehind t w =
      (id : ℤ) × (v : W) × (x : Error) × Added t id (committed w)
      × ((delete_user_by_id db id v).0 ≡ err x)
      × (committed v ≡ committed w)

  abbrev pub Undone : Tables → Error → W → Type 0
  Undone t e w = (committed w ≡ t) ⊎ LeftBehind t w

  Triple-delete_rows :
      (id : ℤ) (t u : Tables)
      → Added t id u
      → Triple (Shows u) (delete_user_by_id db id) (λ a. Shows t) (λ e. LeftBehind t)
  Triple-delete_rows id t u a =
      let deleted = Triple-delete_user_by_id db committed pending I id u in
      Triple-intro _ (λ w h d e. Triple-ok deleted w h e ∙ purge-Added id t u a)
        (λ w h x e.
          let kept = Triple-err deleted w h e in
          (id, w, x, subst (Added t id) (sym kept) a, e, h ∙ sym kept))

  undone :
      (t : Tables) (r : Result Done) (w : W) (x : Error)
      → Ends (λ a. Shows t) (λ e. LeftBehind t) r w
      → Undone t x w
  undone t (ok a) w x h = inl h
  undone t (err e) w x h = inr h

  -- The compensation leads back to the tables from before the registration, or its deletion fails.
  Triple-compensate :
      {A : Type 0} {Q : A → W → Type 0} (id : ℤ) (ldap_created : Bool) (step : String)
      (cause : Error) (t u : Tables)
      → Added t id u
      → Triple (Shows u) (compensate S cfg db ldap ds req id ldap_created step cause) Q (Undone t)
  unfolding compensate
  Triple-compensate id ldap_created step cause t u a =
      Triple-bind (λ _. Shows u) _ _ (Triple-delete_ldap ldap_created u)
        λ _.
          Triple-bind (λ r w. Ends (λ a. Shows t) (λ e. LeftBehind t) r w) _ _
            (Triple-try _ (Triple-delete_rows id t u a))
            λ r. Triple-fail _ (λ w h. undone t r w (wrap step cause) h)

  Triple-set_job_limits :
      (o : Option Terrain.Client) (limit : Option ℤ) {E : Error → W → Type 0} (u : Tables)
      → Triple (Shows u) (set_job_limits S cfg db ldap ds o req limit) (λ _. Shows u) E
  unfolding set_job_limits
  Triple-set_job_limits (some c) (some limit) u =
      Triple-bind (λ _. Shows u) _ _
        (Triple-other _ u (
          Keeps-set_concurrent_job_limits S.http S.terrain_memory c ((K u).terrain_keeps)
            req.username limit))
        (λ _. Triple-pure tt (λ w h. h))
  Triple-set_job_limits (some c) none u = Triple-pure tt (λ w h. h)
  Triple-set_job_limits none limit u = Triple-pure tt (λ w h. h)

  Triple-after_datastore :
      (id : ℤ) (r : Result Done) (t u : Tables)
      → Added t id u
      → Triple
          (Shows u)
          (after_datastore S cfg db ldap ds terrain req id r)
          (Registered t)
          (Undone t)
  unfolding after_datastore
  Triple-after_datastore id (err e) t u a = Triple-compensate id true _ e t u a
  Triple-after_datastore id (ok _) t u a =
      Triple-bind (λ _. Shows u) _ _ (Triple-set_job_limits terrain req.job_limit u)
        (λ _. Triple-pure _ (λ w h. (id, refl, rw h a)))

  Triple-after_ldap :
      (id : ℤ) (password : String) (r : Result Done) (t u : Tables)
      → Added t id u
      → Triple
          (Shows u)
          (after_ldap S cfg db ldap ds terrain req password id r)
          (Registered t)
          (Undone t)
  unfolding after_ldap provision_datastore
  Triple-after_ldap id password (err e) t u a = Triple-compensate id false _ e t u a
  Triple-after_ldap id password (ok _) t u a =
      Triple-bind (λ _. Shows u) _ _
        (Triple-other _ u (
          Keeps-create_user_with_permissions S.irods_server ds ((K u).irods_keeps) req.username
            password _ _))
        (λ r. Triple-after_datastore id r t u a)

  Triple-provision :
      (id : ℤ) (password title : String) (t u : Tables)
      → Added t id u
      → Triple
          (Shows u)
          (provision S cfg db ldap ds terrain req password title id)
          (Registered t)
          (Undone t)
  unfolding provision
  Triple-provision id password title t u a =
      Triple-bind (λ _. Shows u) _ _
        (Triple-other _ u
          (Keeps-create_user_with_groups S.ldap_server ldap ((K u).ldap_keeps) _ _ _))
        (λ r. Triple-after_ldap id password r t u a)

  Keeps-select_exists :
      (t : Tables) (q : ExistsQuery) (s : String) → Keeps (Shows t) (db.select_exists q s)
  Keeps-select_exists t q s = record { after = λ w h. I.select_exists_committed q s w ∙ h }

  Keeps-check_request : (t : Tables) → Keeps (Shows t) (check_request S cfg db ldap ds req)
  unfolding check_request user_exists_by_username is_restricted_username email_exists
  Keeps-check_request t = search (keeps_rules, Keeps-select_exists) depth 12

  Keeps-random : (t : Tables) → Keeps (Shows t) S.random_password
  Keeps-random t = (K t).random_keeps

  Keeps-password_for : (t : Tables) → Keeps (Shows t) (password_for S cfg db ldap ds req)
  Keeps-password_for t = search (keeps_rules, Keeps-random)

  Keeps-select_occupation : (t : Tables) (id : ℤ) → Keeps (Shows t) (db.select_occupation id)
  Keeps-select_occupation t id = record { after = λ w h. I.select_occupation_committed id w ∙ h }

  Keeps-get_occupation_name : (t : Tables) (id : ℤ) → Keeps (Shows t) (get_occupation_name db id)
  unfolding get_occupation_name
  Keeps-get_occupation_name t id = search (keeps_rules, Keeps-select_occupation) depth 9

  Triple-kept :
      {A : Type 0} {m : Call W A} (t : Tables)
      → Keeps (Shows t) m
      → Triple (Shows t) m (λ a. Shows t) (Undone t)
  Triple-kept t k = Triple-weaken (λ w h. h) (λ a w h. h) (λ e w h. inl h) (Triple-of_keeps k)

  Triple-register :
      (t : Tables)
      → Triple (Shows t) (register S cfg db ldap ds terrain req) (Registered t) (Undone t)
  unfolding register
  Triple-register t =
      Triple-bind (λ _. Shows t) _ _ (Triple-kept t (Keeps-check_request t))
        λ _.
          Triple-bind (λ _. Shows t) _ _ (Triple-kept t (Keeps-password_for t))
            λ password.
              Triple-bind (λ _. Shows t) _ _
                (Triple-kept t (Keeps-context _ _ (Keeps-get_occupation_name t req.occupation_id)))
                λ name.
                  Triple-bind (λ id w. Added t id (committed w)) _ _
                    (Triple-weaken (λ w h. h) (λ id w h. h) (λ e w h. inl h)
                      (Triple-context _ _
                        (Triple-create_user_with_email db committed pending I (user_data req) t)))
                    λ id. record {
                      run = λ w a. (Triple-provision id password _ t (committed w) a).run w refl;
                    }

  -- Where the other services do not touch the portal database, a registration that returns a response
  -- has added the user's row and that of the address to the committed tables, under the id that the
  -- response names. One that returns an error, at any step, leaves the committed tables exactly as
  -- they were, or else the compensation's own deletion has returned an error and those two rows are
  -- all that is left behind.
  pub register-all_or_nothing :
      (w : W)
      → Ends
          (Registered (committed w))
          (Undone (committed w))
          (register S cfg db ldap ds terrain req w).0
          (register S cfg db ldap ds terrain req w).1
  register-all_or_nothing w = (Triple-register (committed w)).run w refl
