-- ===== src/Api/Portal/Creation/Membership.antt =====
-- What a registration leaves in the LDAP directory.
use portal_conductor.Base.{String, ◌≡◌, refl, ap, ◌∙◌, Bool, true, false, Option, none, some}
use portal_conductor.Base.Int.{ℤ}
use portal_conductor.Config.{Config}
use portal_conductor.External.{Error}
use portal_conductor.External.Effect.{Result, ok, err, Call, Done}
use portal_conductor.External.Effect.Keeps.{
  Keeps, Keeps-pure, Keeps-bind, Keeps-try, Keeps-context, keeps_rules,
}
use portal_conductor.External.Effect.Triple.{
  Triple, Ends, Triple-of_keeps, Triple-bind, Triple-pure, Triple-fail, Triple-weaken, Triple-try,
  Triple-intro, Triple-ok,
}
use portal_conductor.Kinds.{PortalCreateUserRequest}
use portal_conductor.LdapClient
use portal_conductor.LdapClient.Directory.{Directory, IsDirectory, provisioned}
use portal_conductor.LdapClient.Provision.Refinement.{create_user_with_groups-provisioned}
use portal_conductor.DataStore.{DataStore}
use portal_conductor.DataStore.Frame as DataStoreFrame
use portal_conductor.DataStore.Frame.{Keeps-create_user_with_permissions}
use portal_conductor.Terrain
use portal_conductor.Terrain.Frame as TerrainFrame
use portal_conductor.Terrain.Frame.{Keeps-set_concurrent_job_limits}
use portal_conductor.PortalDb.{
  Database, ExistsQuery, CreateUserData, AccountUserRow, EmailAddressRow,
}
use portal_conductor.PortalDb.Accounts.{
  user_exists_by_username, is_restricted_username, email_exists, get_occupation_name,
}
use portal_conductor.PortalDb.Creation.{
  create_user_tx, create_email_address_tx, create_in, create_user_with_email,
}
use portal_conductor.Api.{Response}
use portal_conductor.Api.Portal.Creation.{
  Services, compensate, set_job_limits, after_datastore, provision_datastore, after_ldap, provision,
  check_request, password_for, register, user_data,
}

-- Nothing that the registration asks of the portal database changes what `P` is about.
pub record RowsKeep {W Tx : Type 0} (D : Database W Tx) (P : W → Type 0) : Type 0 where
  pub begin_keeps : Keeps P D.begin
  pub commit_keeps : (tx : Tx) → Keeps P (D.commit tx)
  pub rollback_keeps : (tx : Tx) (w : W) → P w → P (D.rollback tx w)
  pub insert_user_keeps : (tx : Tx) (row : AccountUserRow) → Keeps P (D.insert_user tx row)
  pub insert_email_keeps : (tx : Tx) (row : EmailAddressRow) → Keeps P (D.insert_email tx row)
  pub select_exists_keeps : (q : ExistsQuery) (s : String) → Keeps P (D.select_exists q s)
  pub select_occupation_keeps : (id : ℤ) → Keeps P (D.select_occupation id)

-- The other services of a registration leave the directory alone.
pub record DirectoryApart {W Conn Fs Tx : Type 0} (S : Services W Conn Fs) (D : Database W Tx)
    (P : W → Type 0) : Type 0 where
  pub rows_apart : RowsKeep D P
  pub irods_apart : DataStoreFrame.CallsKeep S.irods_server P
  pub terrain_apart : TerrainFrame.CallsKeep S.http S.terrain_memory P
  pub random_apart : Keeps P S.random_password

module _ {W Tx : Type 0} (D : Database W Tx) {P : W → Type 0} (R : RowsKeep D P) where
  Keeps-begin : Keeps P D.begin
  Keeps-begin = R.begin_keeps

  Keeps-create_in : (tx : Tx) (user : CreateUserData) → Keeps P (create_in D tx user)
  unfolding create_in create_user_tx create_email_address_tx
  Keeps-create_in tx user =
      search (keeps_rules, R.insert_user_keeps, R.insert_email_keeps, R.commit_keeps) depth 9

  Keeps-create_user_with_email : (user : CreateUserData) → Keeps P (create_user_with_email D user)
  unfolding create_user_with_email
  Keeps-create_user_with_email user =
      search (keeps_rules, Keeps-begin, R.rollback_keeps, Keeps-create_in) depth 9

module _ {W Conn Fs Tx : Type 0} (S : Services W Conn Fs) (cfg : Config) (db : Database W Tx)
    (ldap : LdapClient.Client) (ds : DataStore) (view : W → Directory)
    (I : IsDirectory S.ldap_server ldap view)
    (K : (v : Directory) → DirectoryApart S db (λ w. view w ≡ v)) (terrain : Option Terrain.Client)
    (req : PortalCreateUserRequest) where
  abbrev Shows : Directory → W → Type 0
  Shows v w = view w ≡ v

  abbrev Anything : Error → W → Type 0
  Anything e w = Unit {0}

  -- The compensation never returns a response.
  Triple-compensate :
      {P : W → Type 0} {Q : Response → W → Type 0} (id : ℤ) (created : Bool) (step : String)
      (cause : Error)
      → Triple P (compensate S cfg db ldap ds req id created step cause) Q Anything
  unfolding compensate
  Triple-compensate id created step cause =
      Triple-bind (λ a w. Unit {0}) _ _ (Triple-intro _ (λ w h a e. tt) (λ w h x e. tt))
        λ a.
          Triple-bind (λ a w. Unit {0}) _ _ (Triple-intro _ (λ w h a e. tt) (λ w h x e. tt))
            λ b. Triple-fail _ (λ w h. tt)

  Keeps-set_job_limits :
      (v : Directory) (o : Option Terrain.Client) (limit : Option ℤ)
      → Keeps (Shows v) (set_job_limits S cfg db ldap ds o req limit)
  unfolding set_job_limits
  Keeps-set_job_limits v (some c) (some limit) =
      Keeps-bind _ _
        (Keeps-try _ (
          Keeps-set_concurrent_job_limits S.http S.terrain_memory c ((K v).terrain_apart)
            req.username limit))
        λ r. Keeps-pure tt
  Keeps-set_job_limits v (some c) none = Keeps-pure tt
  Keeps-set_job_limits v none limit = Keeps-pure tt

  Triple-kept :
      {A : Type 0} {m : Call W A} (v : Directory)
      → Keeps (Shows v) m
      → Triple (Shows v) m (λ a. Shows v) Anything
  Triple-kept v k = Triple-weaken (λ w h. h) (λ a w h. h) (λ e w h. tt) (Triple-of_keeps k)

  Triple-after_datastore :
      (id : ℤ) (r : Result Done) (v : Directory)
      → Triple (Shows v) (after_datastore S cfg db ldap ds terrain req id r) (λ a. Shows v) Anything
  unfolding after_datastore
  Triple-after_datastore id (err e) v = Triple-compensate id true _ e
  Triple-after_datastore id (ok _) v =
      Triple-bind (λ a. Shows v) _ _ (Triple-kept v (Keeps-set_job_limits v terrain req.job_limit))
        λ a. Triple-pure _ (λ w h. h)

  -- The directory where the entry is made.
  abbrev made : Directory → Directory
  made = provisioned req.username cfg.ldap.everyone_group cfg.ldap.community_group

  Triple-after_ldap :
      (id : ℤ) (password : String) (r : Result Done) (v : Directory)
      → Triple
          (λ w. Ends (λ a. Shows (made v)) Anything r w)
          (after_ldap S cfg db ldap ds terrain req password id r)
          (λ a. Shows (made v))
          Anything
  unfolding after_ldap provision_datastore
  Triple-after_ldap id password (err e) v = Triple-compensate id false _ e
  Triple-after_ldap id password (ok _) v =
      Triple-bind (λ a. Shows (made v)) _ _
        (Triple-kept (made v) (
          Keeps-try _ (
            Keeps-create_user_with_permissions S.irods_server ds ((K (made v)).irods_apart)
              req.username password _ _)))
        λ r. Triple-after_datastore id r (made v)

  Triple-provision :
      (id : ℤ) (password title : String) (v : Directory)
      → Triple
          (Shows v)
          (provision S cfg db ldap ds terrain req password title id)
          (λ a. Shows (made v))
          Anything
  unfolding provision
  Triple-provision id password title v =
      Triple-bind (λ r w. Ends (λ a. Shows (made v)) Anything r w) _ _
        (Triple-try _ (
          Triple-intro _
            (λ w h a e.
              create_user_with_groups-provisioned S.ldap_server ldap view I _ _ _ w e ∙ ap made h)
            (λ w h x e. tt)))
        λ r. Triple-after_ldap id password r v

  Keeps-select_exists :
      (v : Directory) (q : ExistsQuery) (s : String) → Keeps (Shows v) (db.select_exists q s)
  Keeps-select_exists v = (K v).rows_apart.select_exists_keeps

  Keeps-check_request : (v : Directory) → Keeps (Shows v) (check_request S cfg db ldap ds req)
  unfolding check_request user_exists_by_username is_restricted_username email_exists
  Keeps-check_request v = search (keeps_rules, Keeps-select_exists) depth 12

  Keeps-random : (v : Directory) → Keeps (Shows v) S.random_password
  Keeps-random v = (K v).random_apart

  Keeps-password_for : (v : Directory) → Keeps (Shows v) (password_for S cfg db ldap ds req)
  Keeps-password_for v = search (keeps_rules, Keeps-random)

  Keeps-select_occupation : (v : Directory) (id : ℤ) → Keeps (Shows v) (db.select_occupation id)
  Keeps-select_occupation v = (K v).rows_apart.select_occupation_keeps

  Keeps-get_occupation_name : (v : Directory) (id : ℤ) → Keeps (Shows v) (get_occupation_name db id)
  unfolding get_occupation_name
  Keeps-get_occupation_name v id = search (keeps_rules, Keeps-select_occupation) depth 9

  Triple-register :
      (v : Directory)
      → Triple (Shows v) (register S cfg db ldap ds terrain req) (λ a. Shows (made v)) Anything
  unfolding register
  Triple-register v =
      Triple-bind (λ a. Shows v) _ _ (Triple-kept v (Keeps-check_request v))
        λ checked.
          Triple-bind (λ a. Shows v) _ _ (Triple-kept v (Keeps-password_for v))
            λ password.
              Triple-bind (λ a. Shows v) _ _
                (Triple-kept v (Keeps-context _ _ (Keeps-get_occupation_name v req.occupation_id)))
                λ name.
                  Triple-bind (λ a. Shows v) _ _
                    (Triple-kept v (
                      Keeps-context _ _
                        (Keeps-create_user_with_email db ((K v).rows_apart) (user_data req))))
                    λ id. Triple-provision id password _ v

  -- Where the other services leave a lawful directory alone, a registration that returns a response
  -- has left the user in the directory with an entry and in both groups of the configuration, and
  -- has changed nothing else there.
  pub register-provisioned :
      (w : W) (resp : Response)
      → (register S cfg db ldap ds terrain req w).0 ≡ ok resp
      → view (register S cfg db ldap ds terrain req w).1
        ≡ provisioned req.username cfg.ldap.everyone_group cfg.ldap.community_group (view w)
  register-provisioned w resp e = Triple-ok (Triple-register (view w)) w refl e
