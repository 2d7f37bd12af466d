-- ===== src/Mailman.antt =====
-- The Mailman client (mailman/mailman.go): its record, the requests, and the calls that change a list.
pub mod Roster
use portal_conductor.Base.{String, ◌==◌, none, some, List, [], ◌∷◌, if◌then◌else◌}
use portal_conductor.Base.Escape.{query_escape, replace_all}
use portal_conductor.External.{
  Error, HttpResponse, status_error, request_error, message, error_text, check_response,
}
use portal_conductor.External.Effect.{Result, ok, err, Call, Done, pure, lift, try, ◌>>=◌, ◌>>◌}
use portal_conductor.Http.{Http, Url, QueryValue, plain, Method, post, nobody}

-- `Client`.
pub record Client : Type 0 where
  pub base_url : String
  pub password : String

module _ {W : Type 0} (H : Http W) (c : Client) where
  -- `adminURL`: the path of the base URL is replaced.
  abbrev pub admin_url : String → List String → Url
  admin_url list_name parts = record {
    base = c.base_url;
    elements = "mailman" ∷ "admin" ∷ list_name ∷ parts;
    query = [];
  }

  -- The password is masked as it stands and as a query has it.
  unfoldable pub redact : String → String
  redact s =
      if c.password == ""
      then s
      else replace_all (replace_all s (query_escape c.password) "[REDACTED]") c.password
          "[REDACTED]"

  abbrev pub sent : Url → Result HttpResponse → Result HttpResponse
  sent u (ok resp) = ok resp
  sent u (err e) = err (request_error (redact (H.url_text u)) (message (redact (error_text e))))

  -- The `StatusError` of the response, with its texts masked.
  abbrev pub masked : Error → Error
  masked (status_error status url body) = status_error status (redact url) (redact body)
  masked e = e

  abbrev pub checked : HttpResponse → Result HttpResponse
  checked resp = elim (check_response H.limited resp) [ none ↦ ok resp | some e ↦ err (masked e) ]

  -- `do`, where the whole body is read without an error.
  unfoldable pub call : Method → Url → List (String × QueryValue) → Call W String
  call method u params = do
    let u' : Url = record u { query = params }
    r ← try (H.send (record { method = method; url = u'; authorization = nobody; payload = none }))
    resp ← lift (sent u' r)
    resp' ← lift (checked resp)
    pure resp'.body

  unfoldable pub add_member : String → String → Call W Done
  add_member list_name email = do
    call post (admin_url list_name ("members" ∷ "add" ∷ [])) (
        ("subscribe_or_invite", plain "0")
        ∷ ("send_welcome_msg_to_this_batch", plain "0")
        ∷ ("subscribees_upload", plain email)
        ∷ ("adminpw", plain c.password)
        ∷ [])
    pure tt

  unfoldable pub remove_member : String → String → Call W Done
  remove_member list_name email = do
    call post (admin_url list_name ("members" ∷ "remove" ∷ [])) (
        ("send_unsub_ack_to_this_batch", plain "0")
        ∷ ("send_unsub_notifications_to_list_owner", plain "0")
        ∷ ("unsubscribees_upload", plain email)
        ∷ ("adminpw", plain c.password)
        ∷ [])
    pure tt
