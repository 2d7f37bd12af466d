-- ===== src/Kinds.antt =====
-- Request and response bodies (kinds/kinds.go). A pointer field is an `Option`.
use portal_conductor.Base.{String, Bool, Option, none, List}
use portal_conductor.Base.Int.{ℤ, pos}

pub record CreateUserRequest : Type 0 where
  pub first_name : String
  pub last_name : String
  pub email : String
  pub username : String
  pub user_uid : String
  pub password : String
  pub department : String
  pub organization : String
  pub title : String

pub record AsyncDeleteUserResponse : Type 0 where
  pub user : String
  pub analysis_id : String
  pub status : String

pub record AnalysisStatusResponse : Type 0 where
  pub analysis_id : String
  pub status : String
  pub url_ready : Option Bool
  pub url : Option String

pub record AnalysisListItem : Type 0 where
  pub analysis_id : String
  pub name : String
  pub app_id : String
  pub system_id : String
  pub status : String

pub record JobLimitsResponse : Type 0 where
  pub username : String
  pub concurrent_jobs : Option ℤ

-- `to` and `bcc` are of the type `StringList`.
pub record EmailRequest : Type 0 where
  pub to : List String
  pub subject : String
  pub text_body : Option String
  pub html_body : Option String
  pub from_email : Option String
  pub bcc : List String

pub record UserLdapInfo : Type 0 where
  pub username : String
  pub uid_number : Option ℤ
  pub gid_number : Option ℤ
  pub given_name : Option String
  pub surname : Option String
  pub common_name : Option String
  pub email : Option String
  pub department : Option String
  pub organization : Option String
  pub title : Option String
  pub home_directory : Option String
  pub login_shell : Option String
  pub shadow_last_change : Option ℤ
  pub shadow_min : Option ℤ
  pub shadow_max : Option ℤ
  pub shadow_warning : Option ℤ
  pub shadow_inactive : Option ℤ
  pub object_classes : Option (List String)

pub record LdapGroupInfo : Type 0 where
  pub name : String
  pub gid_number : Option ℤ
  pub display_name : Option String
  pub description : Option String
  pub samba_group_type : Option ℤ
  pub samba_sid : Option String
  pub object_classes : Option (List String)

pub record PortalCreateUserRequest : Type 0 where
  pub username : String
  pub email : String
  pub first_name : String
  pub last_name : String
  pub password : String
  pub department : String
  pub institution : String
  pub occupation_id : ℤ
  pub funding_agency_id : ℤ
  pub gender_id : ℤ
  pub ethnicity_id : ℤ
  pub region_id : ℤ
  pub research_area_id : ℤ
  pub aware_channel_id : ℤ
  pub grid_institution_id : Option ℤ
  pub job_limit : Option ℤ

-- `PortalCreateUserDefaults`.
abbrev pub portal_create_user_defaults : PortalCreateUserRequest
portal_create_user_defaults = record {
  username = "";
  email = "";
  first_name = "";
  last_name = "";
  password = "";
  department = "Not Provided";
  institution = "Not Provided";
  occupation_id = pos 13;
  funding_agency_id = pos 21;
  gender_id = pos 11;
  ethnicity_id = pos 8;
  region_id = pos 4394;
  research_area_id = pos 155;
  aware_channel_id = pos 11;
  grid_institution_id = none;
  job_limit = none;
}
