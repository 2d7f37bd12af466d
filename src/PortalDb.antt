-- ===== src/PortalDb.antt =====
-- The portal database (portaldb/portaldb.go, portaldb/usercreation.go): its statements as data, and
-- database/sql over PostgreSQL as an interface.
pub mod Accounts
pub mod Creation
pub mod Deletion
pub mod Connection
pub mod Tables
use portal_conductor.Base.{String, Bool, Option, List}
use portal_conductor.Base.Int.{ℤ}
use portal_conductor.Json.{Json}
use portal_conductor.External.Effect.{Call, Done}

-- `DELETE FROM table WHERE column = $1`, and `DELETE FROM table WHERE column IN (SELECT id FROM
-- parent WHERE parent_column = $1)`.
pub data Delete : Type 0 where
  delete_where : String → String → Delete
  delete_where_in : String → String → String → String → Delete

-- The `SELECT EXISTS` queries, by table and column, which compare in lower case.
pub data ExistsQuery : Type 0 where
  exists_where_lower : String → String → ExistsQuery  -- LOWER(column) = $1
  exists_where_lower_both : String → String → ExistsQuery  -- LOWER(column) = LOWER($1)

pub record MailingListSubscription : Type 0 where
  pub list_name : String
  pub is_subscribed : Bool

pub record EmailInfo : Type 0 where
  pub email : String
  pub mailing_lists : List MailingListSubscription

pub record UserInfo : Type 0 where
  pub id : ℤ
  pub username : String
  pub primary_email : String
  pub emails : List EmailInfo

-- A row of `userQuery`, with its nullable columns.
pub record UserRow : Type 0 where
  pub id : ℤ
  pub username : String
  pub primary_email : Option String
  pub emails : Option Json

-- `CreateUserData`.
pub record CreateUserData : Type 0 where
  pub username : String
  pub email : String
  pub password : String
  pub first_name : String
  pub last_name : String
  pub institution : String
  pub department : String
  pub occupation_id : ℤ
  pub funding_agency_id : ℤ
  pub gender_id : ℤ
  pub ethnicity_id : ℤ
  pub region_id : ℤ
  pub research_area_id : ℤ
  pub aware_channel_id : ℤ
  pub grid_institution_id : Option ℤ
  pub has_verified_email : Bool

-- The row that `createUserTx` inserts into account_user, but for its two times.
pub record AccountUserRow : Type 0 where
  pub given : CreateUserData
  pub is_superuser : Bool
  pub is_staff : Bool
  pub is_active : Bool
  pub participate_in_study : Bool
  pub subscribe_to_newsletter : Bool
  pub orcid_id : String

-- The row that `createEmailAddressTx` inserts into account_emailaddress, but for its two times.
pub record EmailAddressRow : Type 0 where
  pub user_id : ℤ
  pub email : String
  pub primary : Bool
  pub verified : Bool

-- What the code calls of database/sql, over any state of the world `W` and any handles `Tx` of
-- transactions. `rollback` is deferred by the code, and does nothing after a commit.
pub record Database (W Tx : Type 0) : Type 0 where
  pub begin : Call W Tx
  pub begin_read_only : Call W Tx
  pub commit : Tx → Call W Done
  pub rollback : Tx → W → W
  pub delete : Tx → Delete → ℤ → Call W Done
  pub insert_user : Tx → AccountUserRow → Call W ℤ
  pub insert_email : Tx → EmailAddressRow → Call W Done
  pub select_user : Tx → String → Call W (Option UserRow)
  pub select_exists : ExistsQuery → String → Call W Bool
  pub select_occupation : ℤ → Call W (Option String)
