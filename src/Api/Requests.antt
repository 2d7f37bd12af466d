-- ===== src/Api/Requests.antt =====
-- The fields of the request bodies: how each struct of kinds/kinds.go is decoded.
use portal_conductor.Base.{String, ◌≡◌, refl, true, Option, none, some, List, [], ◌∷◌}
use portal_conductor.Base.Int.{pos}
use portal_conductor.Json.{Items, Members, null, bool, text, array, nil, item}
use portal_conductor.Json.Decode.{Decoder, overlay_field, string_value, int_value, and_then, ◌>>=◌}
use portal_conductor.Kinds.{CreateUserRequest, PortalCreateUserRequest, EmailRequest}

abbrev pub single_field : String → Members → String → Option String
single_field key ms s = overlay_field string_value key ms s

abbrev pub empty_user : CreateUserRequest
empty_user = record {
  first_name = "";
  last_name = "";
  email = "";
  username = "";
  user_uid = "";
  password = "";
  department = "";
  organization = "";
  title = "";
}

unfoldable pub create_user_fields : Members → CreateUserRequest → Option CreateUserRequest
unfolding overlay_field string_value
create_user_fields ms u = do
  first_name ← overlay_field string_value "first_name" ms u.first_name
  last_name ← overlay_field string_value "last_name" ms u.last_name
  email ← overlay_field string_value "email" ms u.email
  username ← overlay_field string_value "username" ms u.username
  user_uid ← overlay_field string_value "user_uid" ms u.user_uid
  password ← overlay_field string_value "password" ms u.password
  department ← overlay_field string_value "department" ms u.department
  organization ← overlay_field string_value "organization" ms u.organization
  title ← overlay_field string_value "title" ms u.title
  some (record {
    first_name = first_name;
    last_name = last_name;
    email = email;
    username = username;
    user_uid = user_uid;
    password = password;
    department = department;
    organization = organization;
    title = title;
  })

abbrev pub create_user_required_fields : List String
create_user_required_fields =
    "first_name" ∷ "last_name" ∷ "email" ∷ "username" ∷ "user_uid" ∷ "password" ∷ "department"
    ∷ "organization" ∷ "title" ∷ []

-- A pointer field: a null sets it to nil.
unfoldable pub pointer_value : {A : Type 0} → A → Decoder A → Decoder (Option A)
pointer_value zero_value decode old null = some none
pointer_value zero_value decode old j = and_then (decode zero_value j) (λ a. some (some a))

-- `DatastoreUserRequest`.
pub record DatastoreUserRequest : Type 0 where
  pub username : String
  pub password : String

unfoldable pub datastore_user_fields : Members → DatastoreUserRequest → Option DatastoreUserRequest
unfolding overlay_field string_value
datastore_user_fields ms u = do
  username ← overlay_field string_value "username" ms u.username
  password ← overlay_field string_value "password" ms u.password
  some (record { username = username; password = password })

-- `DatastoreServiceRequest`.
pub record DatastoreServiceRequest : Type 0 where
  pub irods_path : String
  pub irods_user : Option String

unfoldable pub datastore_service_fields :
    Members → DatastoreServiceRequest → Option DatastoreServiceRequest
unfolding overlay_field string_value pointer_value
datastore_service_fields ms u = do
  irods_path ← overlay_field string_value "irods_path" ms u.irods_path
  irods_user ← overlay_field (pointer_value "" string_value) "irods_user" ms u.irods_user
  some (record { irods_path = irods_path; irods_user = irods_user })

unfoldable pub portal_create_user_fields :
    Members → PortalCreateUserRequest → Option PortalCreateUserRequest
unfolding overlay_field string_value int_value pointer_value
portal_create_user_fields ms u = do
  username ← overlay_field string_value "username" ms u.username
  email ← overlay_field string_value "email" ms u.email
  first_name ← overlay_field string_value "first_name" ms u.first_name
  last_name ← overlay_field string_value "last_name" ms u.last_name
  password ← overlay_field string_value "password" ms u.password
  department ← overlay_field string_value "department" ms u.department
  institution ← overlay_field string_value "institution" ms u.institution
  occupation_id ← overlay_field int_value "occupation_id" ms u.occupation_id
  funding_agency_id ← overlay_field int_value "funding_agency_id" ms u.funding_agency_id
  gender_id ← overlay_field int_value "gender_id" ms u.gender_id
  ethnicity_id ← overlay_field int_value "ethnicity_id" ms u.ethnicity_id
  region_id ← overlay_field int_value "region_id" ms u.region_id
  research_area_id ← overlay_field int_value "research_area_id" ms u.research_area_id
  aware_channel_id ← overlay_field int_value "aware_channel_id" ms u.aware_channel_id
  grid ←
      overlay_field (pointer_value (pos 0) int_value) "grid_institution_id" ms u.grid_institution_id
  job_limit ← overlay_field (pointer_value (pos 0) int_value) "job_limit" ms u.job_limit
  some (record {
    username = username;
    email = email;
    first_name = first_name;
    last_name = last_name;
    password = password;
    department = department;
    institution = institution;
    occupation_id = occupation_id;
    funding_agency_id = funding_agency_id;
    gender_id = gender_id;
    ethnicity_id = ethnicity_id;
    region_id = region_id;
    research_area_id = research_area_id;
    aware_channel_id = aware_channel_id;
    grid_institution_id = grid;
    job_limit = job_limit;
  })

-- The elements of a `[]string`; a null leaves an element empty.
unfoldable pub strings_of : Items → Option (List String)
strings_of nil = some []
strings_of (item (text s) js) = and_then (strings_of js) (λ ss. some (s ∷ ss))
strings_of (item null js) = and_then (strings_of js) (λ ss. some ("" ∷ ss))
strings_of (item _ js) = none

-- `StringList.UnmarshalJSON`: a text, a list of texts, or a null, which a Go string accepts as an empty
-- text.
unfoldable pub string_list_value : Decoder (List String)
unfolding strings_of
string_list_value old (text s) = some (s ∷ [])
string_list_value old null = some ("" ∷ [])
string_list_value old (array js) = strings_of js
string_list_value old _ = none

abbrev pub empty_email : EmailRequest
empty_email = record {
  to = [];
  subject = "";
  text_body = none;
  html_body = none;
  from_email = none;
  bcc = [];
}

unfoldable pub email_fields : Members → EmailRequest → Option EmailRequest
unfolding overlay_field string_value pointer_value string_list_value
email_fields ms u = do
  to ← overlay_field string_list_value "to" ms u.to
  subject ← overlay_field string_value "subject" ms u.subject
  text_body ← overlay_field (pointer_value "" string_value) "text_body" ms u.text_body
  html_body ← overlay_field (pointer_value "" string_value) "html_body" ms u.html_body
  from_email ← overlay_field (pointer_value "" string_value) "from_email" ms u.from_email
  bcc ← overlay_field string_list_value "bcc" ms u.bcc
  some (record {
    to = to;
    subject = subject;
    text_body = text_body;
    html_body = html_body;
    from_email = from_email;
    bcc = bcc;
  })

string_list_tests :
    (string_list_value [] (text "a@b.org") ≡ some ("a@b.org" ∷ []))
    × (string_list_value [] (array (item (text "a") (item (text "b") nil))) ≡ some ("a" ∷ "b" ∷ []))
    × (string_list_value [] null ≡ some ("" ∷ []))
    × (string_list_value [] (bool true) ≡ none)
unfolding string_list_value
string_list_tests = (refl, refl, refl, refl)
