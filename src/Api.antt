-- ===== src/Api.antt =====
-- The HTTP API (api/*.go): requests, responses, and what the handlers share.
pub mod Errors
pub mod Auth
pub mod Body
pub mod Requests
pub mod Users
pub mod Directory
pub mod Datastore
pub mod Portal
pub mod Async
pub mod MailingLists
pub mod JobLimits
pub mod Emails
pub mod Router
pub mod Assembly
use portal_conductor.Base.{ℕ, String, Bool, Option, List}
use portal_conductor.Base.Int.{ℤ}
use portal_conductor.Json.{Json, Members}
use portal_conductor.External.{Detail}
use portal_conductor.External.Effect.{Call}
use portal_conductor.Kinds.{
  UserLdapInfo, LdapGroupInfo, AsyncDeleteUserResponse, AnalysisStatusResponse, AnalysisListItem,
  JobLimitsResponse,
}

-- What reading the body of a request gives: no bytes, bytes that are no JSON, or a document.
pub data RequestBody : Type 0 where
  unreadable : RequestBody
  not_json : RequestBody
  document : Json → RequestBody

-- What a handler reads of a request.
pub record Request : Type 0 where
  pub credentials : Option (String × String)  -- BasicAuth
  pub path_value : String → String
  pub query_value : String → String
  pub body : RequestBody

-- The JSON of a response, by the struct that is encoded.
pub data Payload : Type 0 where
  detail : Detail → Payload
  greeting : Payload
  user : String → Payload  -- UserResponse
  valid : Bool → Payload  -- ValidateResponse
  generic : Bool → String → Payload  -- GenericResponse
  names : List String → Payload
  ldap_info : UserLdapInfo → Payload
  groups : List LdapGroupInfo → Payload
  user_exists : String → Bool → Payload  -- UserExistsResponse
  portal_user_exists : String → Bool → Bool → Bool → Payload  -- username, valid, exists, restricted
  email_exists : String → Bool → Payload  -- PortalEmailExistsResponse
  username_validation : String → Bool → Option String → Payload
  portal_user : String → ℤ → Payload  -- PortalCreateUserResponse
  submitted : AsyncDeleteUserResponse → Payload
  analysis_status : AnalysisStatusResponse → Payload
  analyses : List AnalysisListItem → Payload  -- AnalysesListResponse
  raw : Members → Payload  -- a document of Terrain, as it is
  job_limits : JobLimitsResponse → Payload
  list_members : String → List String → Payload  -- MailingListMembersResponse
  subscribed : String → Bool → Payload  -- EmailExistsResponse

pub record Response : Type 0 where
  pub status : ℕ
  pub challenge : Option String  -- the header WWW-Authenticate
  pub payload : Payload

-- `handlerFunc`: what it writes on success, or the error that it returns.
abbrev pub Handler : Type 0 → Type 0
Handler W = Request → Call W Response
