-- ===== src/Api/MailingLists.antt =====
-- api/mailinglists.go: the members of mailing lists.
use portal_conductor.Base.{String, ◌<>◌, true, [], ◌∷◌, List, if◌then◌else◌}
use portal_conductor.Json.{Json}
use portal_conductor.Config.{Config}
use portal_conductor.External.{Error, error_text}
use portal_conductor.External.Effect.{Call, Done, pure, fail, lift, rethrow, ◌>>=◌, ◌>>◌}
use portal_conductor.Http.{Http}
use portal_conductor.Mailman.{Client, add_member, remove_member}
use portal_conductor.Mailman.Roster.{member_exists, list_members}
use portal_conductor.Api
use portal_conductor.Api.{Request, Handler, generic, subscribed}
use portal_conductor.Api.Errors.{write_json, http_errorf}
use portal_conductor.Api.Body.{decode_body}
use portal_conductor.Api.Requests.{single_field}

-- A 500 response whose text ends in that of the error.
abbrev pub failed_to : String → Error → Error
failed_to what e = http_errorf 500 ("Failed to " <> what <> ": " <> error_text e)

abbrev pub lists_disabled : Error
lists_disabled = http_errorf 503 "Mailing list functionality is not enabled"

module _ {W : Type 0} (H : Http W) (c : Client) (cfg : Config) (describe : Json → String) where
  -- `requireMailman`.
  unfoldable pub require_mailman : Call W Done
  require_mailman = if cfg.mailman.enabled then pure tt else fail lists_disabled

  -- `order` is the order in which the requests for the roster pages take effect.
  unfoldable pub list_mailing_list_members : List String → Handler W
  list_mailing_list_members order r = do
    require_mailman
    members ←
        rethrow (failed_to "retrieve mailing list members")
          (list_members H c order (r.path_value "listname"))
    pure (write_json 200 (Api.list_members (r.path_value "listname") members))

  unfoldable pub add_to_mailing_list : Handler W
  add_to_mailing_list r = do
    require_mailman
    email ← lift (decode_body (single_field "email") describe r.body "" ("email" ∷ []))
    rethrow (failed_to "add user to mailing list") (add_member H c (r.path_value "listname") email)
    pure (
        write_json 200
          (generic true ("Added " <> email <> " to mailing list " <> r.path_value "listname")))

  unfoldable pub remove_from_mailing_list : Handler W
  remove_from_mailing_list r = do
    require_mailman
    rethrow (failed_to "remove user from mailing list")
        (remove_member H c (r.path_value "listname") (r.path_value "email"))
    pure (
        write_json 200 (
          generic true (
            "Removed "
            <> r.path_value "email"
            <> " from mailing list "
            <> r.path_value "listname")))

  unfoldable pub check_email_in_mailing_list : Handler W
  check_email_in_mailing_list r = do
    require_mailman
    there ←
        rethrow (failed_to "check email existence in mailing list")
          (member_exists H c (r.path_value "listname") (r.path_value "email"))
    pure (write_json 200 (subscribed (r.path_value "email") there))
