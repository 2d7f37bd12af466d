-- ===== src/Api/Portal/Creation.antt =====
-- `createPortalUser`: the registration in the portal database, LDAP, the datastore and Terrain, and
-- the compensation where a later step fails.
pub mod Compensation
pub mod Membership
pub mod Checks
use portal_conductor.Base.{
  String, ◌<>◌, ◌==◌, Bool, true, false, Option, none, some, List, [], ◌∷◌, if◌then◌else◌,
}
use portal_conductor.Base.Int.{ℤ, ◌+ℤ◌}
use portal_conductor.Base.Text.{itoa}
use portal_conductor.Json.{Json}
use portal_conductor.Config.{Config}
use portal_conductor.External.{Error, wrap}
use portal_conductor.External.Effect.{
  Result, ok, err, Call, Done, pure, fail, lift, context, try, ◌>>=◌, ◌>>◌, when,
}
use portal_conductor.Kinds.{CreateUserRequest, PortalCreateUserRequest, portal_create_user_defaults}
use portal_conductor.Http.{Http}
use portal_conductor.LdapClient
use portal_conductor.LdapClient.Provision.{create_user_with_groups}
use portal_conductor.DataStore
use portal_conductor.DataStore.{DataStore}
use portal_conductor.DataStore.Provision.{create_user_with_permissions}
use portal_conductor.Terrain
use portal_conductor.Terrain.Calls.{set_concurrent_job_limits}
use portal_conductor.PortalDb.{Database, CreateUserData}
use portal_conductor.PortalDb.Accounts.{
  user_exists_by_username, is_restricted_username, email_exists, get_occupation_name,
}
use portal_conductor.PortalDb.Creation.{create_user_with_email, delete_user_by_id}
use portal_conductor.Api.{Request, Response, Handler, portal_user}
use portal_conductor.Api.Errors.{write_json, http_errorf}
use portal_conductor.Api.Body.{decode_body}
use portal_conductor.Api.Requests.{portal_create_user_fields}
use portal_conductor.Api.Portal.{username_valid, email_valid, ensure_portal_db}

-- The services behind the API, over one world: go-ldap, go-irodsclient, net/http and the memory of
-- the Terrain client, and what the code asks of crypto/rand and net/mail.
pub record Services (W Conn Fs : Type 0) : Type 0 where
  pub ldap_server : LdapClient.Server W Conn
  pub irods_server : DataStore.Server W Fs
  pub http : Http W
  pub terrain_memory : Terrain.Memory W
  -- 36 random bytes, as base64 text
  pub random_password : Call W String
  pub parse_address : String → Option String
  -- the text of encoding/json's error about a document
  pub describe : Json → String

-- The clients of `API` that this handler uses; a nil pointer is none.
pub record Clients (W Tx : Type 0) : Type 0 where
  pub ldap : Option LdapClient.Client
  pub ds : Option DataStore
  pub terrain : Option Terrain.Client
  pub portal_db : Option (Database W Tx)

abbrev pub or_unknown : String → String
or_unknown name = if name == "" then "Unknown" else name

abbrev pub user_data : PortalCreateUserRequest → CreateUserData
user_data req = record {
  username = req.username;
  email = req.email;
  password = "";
  first_name = req.first_name;
  last_name = req.last_name;
  institution = req.institution;
  department = req.department;
  occupation_id = req.occupation_id;
  funding_agency_id = req.funding_agency_id;
  gender_id = req.gender_id;
  ethnicity_id = req.ethnicity_id;
  region_id = req.region_id;
  research_area_id = req.research_area_id;
  aware_channel_id = req.aware_channel_id;
  grid_institution_id = req.grid_institution_id;
  has_verified_email = true;
}

abbrev pub ldap_user : PortalCreateUserRequest → String → String → ℤ → CreateUserRequest
ldap_user req password title uid_number = record {
  first_name = req.first_name;
  last_name = req.last_name;
  email = req.email;
  username = req.username;
  user_uid = itoa uid_number;
  password = password;
  department = req.department;
  organization = req.institution;
  title = title;
}

abbrev pub ensure_configured : {W A : Type 0} → String → Option A → Call W A
ensure_configured what (some a) = pure a
ensure_configured what none = fail (http_errorf 503 (what <> " integration not configured"))

module _ {W Conn Fs Tx : Type 0} (S : Services W Conn Fs) (cfg : Config) where
  module _ (db : Database W Tx) (ldap : LdapClient.Client) (ds : DataStore) where
    -- `compensate`: each clean-up is tried, and the cause is returned under the step's name.
    unfoldable pub compensate :
        {A : Type 0} → PortalCreateUserRequest → ℤ → Bool → String → Error → Call W A
    compensate req user_id ldap_created step cause = do
      when ldap_created
          (do try (LdapClient.Users.delete_user S.ldap_server ldap req.username); pure tt)
      try (delete_user_by_id db user_id)
      fail (wrap step cause)

    -- Step 4. A failure of Terrain is logged, and no more.
    unfoldable pub set_job_limits :
        Option Terrain.Client → PortalCreateUserRequest → Option ℤ → Call W Done
    set_job_limits (some terrain) req (some limit) = do
      try (set_concurrent_job_limits S.http S.terrain_memory terrain req.username limit)
      pure tt
    set_job_limits (some terrain) req none = pure tt
    set_job_limits none req limit = pure tt

    abbrev pub created : PortalCreateUserRequest → ℤ → Response
    created req user_id = write_json 201 (portal_user req.username user_id)

    -- What follows step 3, by its result.
    unfoldable pub after_datastore :
        Option Terrain.Client → PortalCreateUserRequest → ℤ → Result Done → Call W Response
    after_datastore terrain req user_id (err e) =
        compensate req user_id true "creating DataStore user" e
    after_datastore terrain req user_id (ok _) = do
      set_job_limits terrain req req.job_limit
      pure (created req user_id)

    unfoldable pub provision_datastore :
        Option Terrain.Client → PortalCreateUserRequest → String → ℤ → Call W Response
    provision_datastore terrain req password user_id = do
      r ← try (
          create_user_with_permissions S.irods_server ds req.username password
            cfg.irods.ipcservices_user cfg.irods.admin_user)
      after_datastore terrain req user_id r

    -- What follows step 2, by its result.
    unfoldable pub after_ldap :
        Option Terrain.Client → PortalCreateUserRequest → String → ℤ → Result Done → Call W Response
    after_ldap terrain req password user_id (err e) =
        compensate req user_id false "creating LDAP user" e
    after_ldap terrain req password user_id (ok _) =
        provision_datastore terrain req password user_id

    -- Steps 2 to 4, for a user that has its row in the portal database.
    unfoldable pub provision :
        Option Terrain.Client → PortalCreateUserRequest → String → String → ℤ → Call W Response
    provision terrain req password title user_id = do
      let uid_number = user_id +ℤ cfg.security.uid_number_offset
      r ← try (
          create_user_with_groups S.ldap_server ldap (ldap_user req password title uid_number)
            cfg.ldap.everyone_group cfg.ldap.community_group)
      after_ldap terrain req password user_id r

    abbrev pub reject_if : Bool → String → Call W Done
    reject_if test reason = if test then fail (http_errorf 400 reason) else pure tt

    -- The checks of the request, before anything is written.
    unfoldable pub check_request : PortalCreateUserRequest → Call W Done
    check_request req = do
      if username_valid req.username
          then pure tt
          else fail (http_errorf 400 "Username format is invalid.")
      if email_valid S.parse_address req.email
          then pure tt
          else fail (http_errorf 400 "Invalid email address format.")
      is_restricted ←
          context "checking restricted username" (is_restricted_username db req.username)
      reject_if is_restricted "Username is restricted."
      user_exists ← context "checking user existence" (user_exists_by_username db req.username)
      reject_if user_exists "Username already taken."
      email_taken ← context "checking email existence" (email_exists db req.email)
      reject_if email_taken "Email already in use."

    abbrev pub password_for : PortalCreateUserRequest → Call W String
    password_for req =
        if req.password == ""
        then context "generating random password" S.random_password
        else pure req.password

    -- What follows the decoding of the body.
    unfoldable pub register : Option Terrain.Client → PortalCreateUserRequest → Call W Response
    register terrain req = do
      check_request req
      password ← password_for req
      occupation_name ← context "looking up occupation" (get_occupation_name db req.occupation_id)
      user_id ← context "creating portal user" (create_user_with_email db (user_data req))
      provision terrain req password (or_unknown occupation_name) user_id

  unfoldable pub create_portal_user : Clients W Tx → Handler W
  create_portal_user a r = do
    db ← ensure_portal_db a.portal_db
    ldap ← ensure_configured "LDAP" a.ldap
    ds ← ensure_configured "DataStore" a.ds
    req ← lift (
        decode_body portal_create_user_fields S.describe r.body portal_create_user_defaults
          ("username" ∷ "email" ∷ "first_name" ∷ "last_name" ∷ []))
    register db ldap ds a.terrain req
