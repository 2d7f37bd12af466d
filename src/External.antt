-- ===== src/External.antt =====
-- Errors as values (external/external.go, and the `httpError` of api/server.go): every error that
-- the program tells apart by `errors.As`, and the wrapping by `fmt.Errorf("...: %w", err)`.
pub mod Effect
use portal_conductor.Base.{
  ℕ, ◌<>◌, String, Bool, true, false, Option, none, some, List, [], ◌∷◌, join, map, ltb,
  if◌then◌else◌,
}
use portal_conductor.Base.Text.{itoa_ℕ, itoa}
use portal_conductor.Base.Int.{ℤ}
use portal_conductor.Json.{Json}

-- `kinds.ValidationError`.
pub record ValidationError : Type 0 where
  pub kind : String
  pub loc : List String
  pub msg : String

-- What an `httpError` carries as `detail any`: a text, or the list of a 422 response.
pub data Detail : Type 0 where
  text : String → Detail
  validation : List ValidationError → Detail

pub data Error : Type 0 where
  http_error : ℕ → Detail → Error  -- api.httpError: status, detail
  status_error : ℕ → String → String → Error  -- external.StatusError: status code, URL, body
  request_error : String → Error → Error  -- external.RequestError: URL, the error inside
  ldap_error : ℕ → String → Error  -- ldap.Error: result code, text
  irods_error : ℤ → String → Error  -- types.IRODSError: code, text
  message : String → Error  -- an error with a text alone
  wrap : String → Error → Error  -- fmt.Errorf("<text>: %w", err)

-- `%v` of a list of structs and of a detail.
entry_text : ValidationError → String
entry_text v = "{" <> v.kind <> " [" <> join " " v.loc <> "] " <> v.msg <> "}"

detail_text : Detail → String
detail_text (text s) = s
detail_text (validation vs) = "[" <> join " " (map entry_text vs) <> "]"

-- The method `Error()`.
unfoldable pub error_text : Error → String
unfolding entry_text detail_text itoa_ℕ
error_text (http_error status detail) = "HTTP " <> itoa_ℕ status <> ": " <> detail_text detail
error_text (status_error status url body) = "external API error: " <> itoa_ℕ status <> " - " <> url
error_text (request_error url e) = "request error for " <> url <> ": " <> error_text e
error_text (ldap_error code s) = s
error_text (irods_error code s) = s
error_text (message s) = s
error_text (wrap s e) = s <> ": " <> error_text e

-- `errors.As(err, &he)` for an `*httpError`: the first one of the chain.
unfoldable pub as_http_error : Error → Option (ℕ × Detail)
as_http_error (http_error status detail) = some (status, detail)
as_http_error (request_error url e) = as_http_error e
as_http_error (wrap s e) = as_http_error e
as_http_error _ = none

-- `errors.As(err, &se)` for a `*StatusError`.
unfoldable pub as_status_error : Error → Option (ℕ × String × String)
as_status_error (status_error status url body) = some (status, url, body)
as_status_error (request_error url e) = as_status_error e
as_status_error (wrap s e) = as_status_error e
as_status_error _ = none

-- `errors.As(err, &re)` for a `*RequestError`.
unfoldable pub as_request_error : Error → Option (String × Error)
as_request_error (request_error url e) = some (url, e)
as_request_error (wrap s e) = as_request_error e
as_request_error _ = none

-- `errors.As(err, &ldapErr)`: the result code of the first `*ldap.Error`.
unfoldable pub as_ldap_error : Error → Option ℕ
as_ldap_error (ldap_error code s) = some code
as_ldap_error (request_error url e) = as_ldap_error e
as_ldap_error (wrap s e) = as_ldap_error e
as_ldap_error _ = none

-- `errors.As(err, &irodsErr)`: the code of the first `*types.IRODSError`.
unfoldable pub as_irods_error : Error → Option ℤ
as_irods_error (irods_error code s) = some code
as_irods_error (request_error url e) = as_irods_error e
as_irods_error (wrap s e) = as_irods_error e
as_irods_error _ = none

-- An HTTP response as the clients read it: the URL of its request, its status and its body.
pub record HttpResponse : Type 0 where
  pub url : String
  pub status : ℕ
  pub body : String
  -- the value that the body stands for, where it is JSON
  pub json : Option Json

-- `CheckResponse`, with the cut of the body at 64 KiB as the parameter `limited`.
unfoldable pub check_response : (String → String) → HttpResponse → Option Error
check_response limited resp =
    if ltb resp.status 400
    then none
    else some (status_error resp.status resp.url (limited resp.body))

-- `StatusCodeOf`.
unfoldable pub status_code_of : Error → ℕ
unfolding as_status_error
status_code_of e = elim (as_status_error e) [ some (status, _, _) ↦ status | none ↦ 0 ]
