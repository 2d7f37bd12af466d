-- ===== src/Examples/Requests.antt =====
-- Requests, errors and configurations on concrete inputs.
use portal_conductor.Base.{◌≡◌, true, some, [], ◌∷◌, ◌↔◌}
use portal_conductor.Json.{member, end, null, text, object}
use portal_conductor.Config.{Config, defaults}
use portal_conductor.External.{Error, message, request_error}
use portal_conductor.External.Effect.{ok, Done}
use portal_conductor.Api.{Request, Handler, RequestBody, document, greeting}
use portal_conductor.Api.Errors.{error_response, write_json}
use portal_conductor.Api.Errors.Mapping.{error_response-promised}
use portal_conductor.Api.Auth.{protected}
use portal_conductor.Api.Auth.Guard.{is_admitted, Decided, protected-Decided}
use portal_conductor.Api.Body.{decode_body}
use portal_conductor.Api.Body.Required.{Accepts, decode_body-Accepts}
use portal_conductor.Api.Requests.{single_field}

abbrev not_found : Error
not_found = request_error "https://h" (message "refused")

error_response-promised_example : (error_response not_found).status ≡ 503
error_response-promised_example = error_response-promised not_found tt

abbrev with_auth : Config
with_auth = record defaults {
  auth = record { enabled = true; username = "portal"; password = "pw"; realm = "Portal" };
}

abbrev complete : Config
complete = record with_auth {
  ldap = record {
    url = "ldap://h";
    user = "cn=m";
    password = "pw";
    base_dn = "dc=e";
    community_group = "c";
    everyone_group = "e";
  };
  irods = record {
    host = "h";
    port = "1247";
    user = "rods";
    password = "pw";
    zone = "z";
    admin_user = "a";
    ipcservices_user = "i";
  };
  terrain = record {
    url = "";
    user = "t";
    password = "pw";
    user_deletion_app_id = "";
    user_deletion_app_name = "n";
    system_id = "de";
  };
}

abbrev hello : Handler Done
hello r w = (ok (write_json 200 greeting), w)

abbrev refused : Request
refused = record {
  credentials = some ("portal", "wrong");
  path_value = λ s. "";
  query_value = λ s. "";
  body = document null;
}

protected-Decided_example :
    Decided hello refused tt
      (is_admitted with_auth (some ("portal", "wrong")))
      (protected with_auth (λ s. s) hello refused tt)
protected-Decided_example = protected-Decided with_auth (λ s. s) hello refused tt

abbrev body : RequestBody
body = document (object (member "password" (text "pw") end))

decode_body-Accepts_example :
    (decode_body (single_field "password") (λ j. "json") body "" ("password" ∷ []) ≡ ok "pw")
    ↔ Accepts (single_field "password") "" ("password" ∷ []) body "pw"
decode_body-Accepts_example =
    decode_body-Accepts (single_field "password") (λ j. "json") "" ("password" ∷ []) body "pw"
