-- ===== src/DataStore.antt =====
-- The iRODS client (datastore/datastore.go): its record, and go-irodsclient as an interface.
pub mod Session
pub mod Users
pub mod Contents
pub mod Provision
pub mod Frame
use portal_conductor.Base.{String, Bool, Option, List}
use portal_conductor.Base.Int.{ℤ}
use portal_conductor.External.{Error}
use portal_conductor.External.Effect.{Call, Done}

-- The fields of `DataStore` that `New` sets.
pub record DataStore : Type 0 where
  pub host : String
  pub port : ℤ
  pub user : String
  pub password : String
  pub zone : String

-- `types.IRODSAccess`, of which the code reads the user and whether the level is "own".
pub record Access : Type 0 where
  pub user_name : String
  pub is_owner : Bool

-- `fs.Entry`.
pub record DirEntry : Type 0 where
  pub path : String
  pub is_dir : Bool

-- The functions of go-irodsclient that the code calls, over any state of the world `W` and any
-- handles `Fs` of a file system; `cached` and `remember` are the field `fs` of the `DataStore`.
pub record Server (W Fs : Type 0) : Type 0 where
  pub cached : W → Option Fs
  pub remember : Fs → W → W
  pub check_account : DataStore → Option Error
  pub new_file_system : DataStore → Call W Fs
  pub get_server_version : Fs → Call W Done
  -- `GetUser` answers the type of the user, which `RemoveUser` takes.
  pub get_user : Fs → String → String → Call W String
  pub is_user_not_found : Error → Bool
  pub create_user : Fs → String → String → Call W Done
  pub remove_user : Fs → String → String → String → Call W Done
  pub change_user_password : Fs → String → String → String → Call W Done
  pub exists : Fs → String → W → Bool × W
  pub exists_dir : Fs → String → W → Bool × W
  pub make_dir : Fs → String → Call W Done
  -- path, recurse, force
  pub remove_dir : Fs → String → Bool → Bool → Call W Done
  pub remove_file : Fs → String → Bool → Call W Done
  pub list_dir : Fs → String → Call W (List DirEntry)
  pub list_acls : Fs → String → Call W (List Access)
  -- path, user, zone: ownership, not recursive, in admin mode
  pub set_owner : Fs → String → String → String → Call W Done
  -- `nil`, or the flag
  pub get_inheritance : Fs → String → Call W (Option Bool)
  pub set_inheritance : Fs → String → Call W Done
