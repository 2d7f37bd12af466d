-- ===== src/Examples/Routing.antt =====
-- The router, the API and its listeners on concrete inputs.
use portal_conductor.Base.{◌≤◌, String, ◌==◌, refl, true, false, none, some, [], ◌∷◌, inl, All}
use portal_conductor.Base.Int.{pos}
use portal_conductor.Config.{Config, defaults}
use portal_conductor.External.{text}
use portal_conductor.External.Effect.{Done}
use portal_conductor.EmailService.{new_service}
use portal_conductor.Mailman.Roster.{letters}
use portal_conductor.Api.{Request, Response, not_json, greeting}
use portal_conductor.Api.Errors.{handle, write_json, write_detail}
use portal_conductor.Api.Assembly.{Api, Surroundings, handlers}
use portal_conductor.Api.Assembly.Disabled.{
  mailing_lists, endpoints, IsUnavailable, handlers-IsUnavailable,
}
use portal_conductor.Api.Router.{Incoming, UrlPath, serve_http}
use portal_conductor.Api.Router.Guarded.{IsPublic, serve_http-IsPublic}
use portal_conductor.Api.Router.Disjoint.{fitting, fitting-api_routes}
use portal_conductor.Api.Router.Table.{Handlers, api_routes, routes}
use portal_conductor.Startup.{
  Listener, health_checks, answer, ssl_ready, listeners, serve, file_exists,
}
use portal_conductor.Startup.Listeners.{IsHealth, answer-IsHealth}
use portal_conductor.Examples.Ldap
use portal_conductor.Examples.Network.{app_memory, floats, mailman, mail_server}
use portal_conductor.Examples.Services.{services, irods, data_store}
use portal_conductor.Examples.Sorting.{sort_func}
use portal_conductor.Examples.Tables.{database}
use portal_conductor.Examples.World.{World, start}

abbrev api : Api World Done
api = record {
  cfg = defaults;
  ldap = Ldap.client;
  ds = data_store;
  terrain = record { base_url = "https://t"; username = "portal"; password = "pw" };
  mailman = mailman;
  email = new_service defaults.smtp;
  portal_db = some database;
}

abbrev surroundings : Surroundings World Done Done
surroundings = record {
  mail_server = mail_server;
  app_memory = app_memory;
  floats = floats;
  sort_func = sort_func;
  equal_fold = ◌==◌;
  shown = λ ms. "{}";
  page_order = letters;
  home_protected = pos 0;
  fuel = 9;
}

abbrev methods : Handlers World
methods = handlers (services irods) surroundings api

abbrev user_path : UrlPath
user_path = record { elements = "users" ∷ "ann" ∷ []; slash = false }

-- Somebody without credentials asks for the deletion of ann.
abbrev incoming : Incoming
incoming = record {
  method = "DELETE";
  path = user_path;
  credentials = none;
  query_value = λ key. "";
  body = not_json;
}

abbrev quoted : String → String
quoted s = s

abbrev pages : Incoming → World → Response × World
pages i w = (write_json 200 greeting, w)

abbrev moved : Response
moved = write_detail 301 (text "Moved Permanently")

serve_http-IsPublic_example :
    IsPublic defaults quoted pages moved incoming start
      (serve_http defaults quoted pages moved (routes methods) incoming start)
serve_http-IsPublic_example =
    serve_http-IsPublic defaults quoted pages moved methods incoming start refl

fitting-api_routes_example : fitting (api_routes methods) "DELETE" user_path ≤ 1
fitting-api_routes_example = fitting-api_routes methods "DELETE" user_path

abbrev with_ssl : Config
with_ssl = record defaults {
  ssl = record { enabled = true; cert_file = "crt"; key_file = "key"; port = pos 8443 };
}

abbrev plain_port : Listener
plain_port = record { port = pos 8000; certificate = none; served = health_checks }

answer-IsHealth_example :
    IsHealth moved start (answer with_ssl quoted pages moved methods plain_port incoming start)
unfolding listeners serve ssl_ready file_exists
answer-IsHealth_example =
    answer-IsHealth with_ssl quoted pages moved methods (λ path. true)
      (record { http_port = pos 0; https_port = pos 0 }) plain_port incoming start refl (inl refl)
      refl

-- Mailman is off by default.
handlers-IsUnavailable_example :
    All
      (λ e. (r : Request) (w : World) → IsUnavailable e.0 r (handle e.1 r w) w)
      (endpoints methods mailing_lists)
handlers-IsUnavailable_example =
    handlers-IsUnavailable (services irods) surroundings api mailing_lists refl
