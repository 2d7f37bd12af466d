-- ===== src/Api/Portal.antt =====
-- api/portalmgmt.go: the format of names and emails, and the look-ups in the portal database.
pub mod Creation
pub mod Names
use Prim.Native.Char.{code}
use portal_conductor.Base.{
  ℕ, String, ◌==◌, Bool, true, false, ◌&&◌, ◌||◌, Option, none, some, leb, if◌then◌else◌,
}
use portal_conductor.External.Effect.{Call, pure, fail, context, ◌>>=◌}
use portal_conductor.PortalDb.{Database}
use portal_conductor.PortalDb.Accounts
use portal_conductor.PortalDb.Accounts.{user_exists_by_username, is_restricted_username}
use portal_conductor.Api.{
  Request, Response, Handler, portal_user_exists, email_exists, username_validation,
}
use portal_conductor.Api.Errors.{write_json, http_errorf}

-- A character of the class `[0-9a-z]`.
abbrev pub is_name_code : ℕ → Bool
is_name_code c = (leb b'0' c && leb c b'9') || (leb b'a' c && leb c b'z')

unfoldable pub all_name_codes : String → Bool
all_name_codes String.[] = true
all_name_codes (String.◌∷◌ c s) = is_name_code (code c) && all_name_codes s

-- `usernameValid`: a match of `^[0-9a-z]+$`.
unfoldable pub username_valid : String → Bool
unfolding all_name_codes
username_valid String.[] = false
username_valid (String.◌∷◌ c s) = all_name_codes (String.◌∷◌ c s)

-- `emailValid`, over the address that net/mail parses from a text.
unfoldable pub email_valid : (String → Option String) → String → Bool
email_valid parse_address email =
    if email == ""
    then false
    else elim (parse_address email) [ some address ↦ address == email | none ↦ false ]

abbrev pub exists_response : String → Bool → Bool → Response
exists_response username taken is_restricted =
    write_json 200
      (portal_user_exists username (username_valid username) (taken || is_restricted) is_restricted)

abbrev pub verdict : String → Option String → Response
verdict username (some reason) = write_json 200 (username_validation username false (some reason))
verdict username none = write_json 200 (username_validation username true none)

module _ {W Tx : Type 0} where
  -- `ensurePortalDB`, with the connection that the handler goes on to use.
  abbrev pub ensure_portal_db : Option (Database W Tx) → Call W (Database W Tx)
  ensure_portal_db (some db) = pure db
  ensure_portal_db none = fail (http_errorf 503 "Portal database not configured")

  abbrev check_user : String → Database W Tx → Call W Response
  check_user username db = do
    taken ← context "checking user existence" (user_exists_by_username db username)
    is_restricted ← context "checking restricted username" (is_restricted_username db username)
    pure (exists_response username taken is_restricted)

  abbrev check_email : String → Database W Tx → Call W Response
  check_email email db = do
    there ← context "checking email existence" (Accounts.email_exists db email)
    pure (write_json 200 (email_exists email there))

  abbrev pub validate_free : String → Database W Tx → Call W Response
  validate_free username db = do
    taken ← context "checking user existence" (user_exists_by_username db username)
    pure (verdict username (if taken then some "Username already taken." else none))

  abbrev pub validate_username : String → Database W Tx → Call W Response
  validate_username username db =
      if username_valid username
      then (do
        is_restricted ← context "checking restricted username" (is_restricted_username db username)
        if is_restricted
            then pure (verdict username (some "Username is restricted."))
            else validate_free username db)
      else pure (verdict username (some "Username format is invalid."))

  module _ (portal_db : Option (Database W Tx)) where
    unfoldable pub check_portal_user_exists : Handler W
    check_portal_user_exists r = do
      db ← ensure_portal_db portal_db
      check_user (r.path_value "username") db

    unfoldable pub check_portal_email_exists : Handler W
    check_portal_email_exists r = do
      db ← ensure_portal_db portal_db
      check_email (r.path_value "email") db

    unfoldable pub validate_portal_username : Handler W
    validate_portal_username r = do
      db ← ensure_portal_db portal_db
      validate_username (r.path_value "username") db
