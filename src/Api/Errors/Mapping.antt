-- ===== src/Api/Errors/Mapping.antt =====
-- The responses to errors, wrapped ones included.
use portal_conductor.Base.{
  ℕ, String, ◌≡◌, refl, ap, ◌∙◌, true, false, none, nat_eq, inl, inr, if◌then◌else◌, Bool-cases,
}
use portal_conductor.External.{
  Error, http_error, status_error, request_error, ldap_error, irods_error, message, wrap,
  as_http_error, as_status_error, as_request_error,
}
use portal_conductor.Api.Errors.{error_response}

one_layer : (s : String) (e : Error) → error_response (wrap s e) ≡ error_response e
unfolding error_response as_http_error as_status_error as_request_error
one_layer s e = refl

-- The status that the API promises for each sort of error.
abbrev pub promised : Error → ℕ
promised (http_error status d) = status
promised (status_error code url body) = if nat_eq code 404 then 404 else 502
promised (request_error url e) = 503
promised (ldap_error code s) = 500
promised (irods_error code s) = 500
promised (message s) = 500
promised (wrap s e) = promised e

-- An error of a transport, which is neither an API error nor a status of an external service.
abbrev pub IsTransport : Error → Type 0
IsTransport (http_error status d) = true ≡ false
IsTransport (status_error code url body) = true ≡ false
IsTransport (request_error url e) = IsTransport e
IsTransport (ldap_error code s) = Unit
IsTransport (irods_error code s) = Unit
IsTransport (message s) = Unit
IsTransport (wrap s e) = IsTransport e

-- The errors that the program builds: a request error holds an error of the transport.
abbrev pub IsBuilt : Error → Type 0
IsBuilt (request_error url e) = IsTransport e
IsBuilt (wrap s e) = IsBuilt e
IsBuilt _ = Unit

transport_no_http : (e : Error) → IsTransport e → as_http_error e ≡ none
unfolding as_http_error
transport_no_http (http_error status d) h = cc
transport_no_http (status_error code url body) h = refl
transport_no_http (request_error url e) h = transport_no_http e h
transport_no_http (ldap_error code s) h = refl
transport_no_http (irods_error code s) h = refl
transport_no_http (message s) h = refl
transport_no_http (wrap s e) h = transport_no_http e h

transport_no_status : (e : Error) → IsTransport e → as_status_error e ≡ none
unfolding as_status_error
transport_no_status (http_error status d) h = refl
transport_no_status (status_error code url body) h = cc
transport_no_status (request_error url e) h = transport_no_status e h
transport_no_status (ldap_error code s) h = refl
transport_no_status (irods_error code s) h = refl
transport_no_status (message s) h = refl
transport_no_status (wrap s e) h = transport_no_status e h

-- For every error that the program builds, the status of the response is the promised one: an API
-- error's own, 404 for a 404 of an external service and 502 for its other errors, 503 where the
-- service was not reached, and 500 for the rest; context around the error does not count.
pub error_response-promised : (e : Error) → IsBuilt e → (error_response e).status ≡ promised e
unfolding error_response as_http_error as_status_error as_request_error
error_response-promised (http_error status d) h = refl
error_response-promised (status_error code url body) h = elim (Bool-cases (nat_eq code 404)) [
  | inl e ↦ rw e refl
  | inr e ↦ rw e refl
]
error_response-promised (request_error url e) h =
    rw (error_response, transport_no_http e h, transport_no_status e h) refl
error_response-promised (ldap_error code s) h = refl
error_response-promised (irods_error code s) h = refl
error_response-promised (message s) h = refl
error_response-promised (wrap s e) h =
    ap (λ r. r.status) (one_layer s e) ∙ error_response-promised e h
