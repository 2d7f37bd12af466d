-- ===== src/Api/Emails.antt =====
-- api/emails.go: an email by SMTP.
use portal_conductor.Base.{String, true, not, ◌&&◌, [], ◌∷◌, if◌then◌else◌}
use portal_conductor.Json.{Json}
use portal_conductor.External.{Error}
use portal_conductor.External.Effect.{Call, Done, pure, fail, lift, rethrow, ◌>>=◌, ◌>>◌}
use portal_conductor.Kinds.{EmailRequest}
use portal_conductor.EmailService
use portal_conductor.EmailService.{Service, send}
use portal_conductor.EmailService.Message.{given}
use portal_conductor.Api.{Handler, generic}
use portal_conductor.Api.Errors.{write_json, http_errorf}
use portal_conductor.Api.Body.{decode_body}
use portal_conductor.Api.Requests.{email_fields, empty_email}

abbrev send_failed : Error → Error
send_failed e = http_errorf 500 "Failed to send email"

module _ {W Conn Session : Type 0} (S : EmailService.Server W Conn Session) (s : Service)
    (describe : Json → String) where
  abbrev checked_body : EmailRequest → Call W Done
  checked_body req =
      if not (given req.text_body) && not (given req.html_body)
      then fail (http_errorf 400 "Either text_body or html_body must be provided")
      else pure tt

  unfoldable pub send_email : Handler W
  send_email r = do
    req ← lift (decode_body email_fields describe r.body empty_email ("to" ∷ "subject" ∷ []))
    checked_body req
    rethrow send_failed
        (send S s req.to req.subject req.text_body req.html_body req.from_email req.bcc)
    pure (write_json 200 (generic true "Email sent successfully"))
