-- ===== src/Http.antt =====
-- HTTP requests as the clients make them, and net/http as an interface.
use portal_conductor.Base.{String, Option, List}
use portal_conductor.Json.{Json}
use portal_conductor.External.{HttpResponse}
use portal_conductor.External.Effect.{Call}

pub data Method : Type 0 where
  get post put : Method

-- A value of a query: a text, or a document that is encoded as JSON.
pub data QueryValue : Type 0 where
  plain : String → QueryValue
  encoded : Json → QueryValue

-- A URL by its parts: the configured base, the elements put behind it, and the query.
pub record Url : Type 0 where
  pub base : String
  pub elements : List String
  pub query : List (String × QueryValue)

pub data Authorization : Type 0 where
  nobody : Authorization
  basic : String → String → Authorization
  bearer : String → Authorization

pub record Request : Type 0 where
  pub method : Method
  pub url : Url
  pub authorization : Authorization
  pub payload : Option Json

-- `http.Client.Do` and `url.URL.String`. The error of `send` is that of the transport.
pub record Http (W : Type 0) : Type 0 where
  pub send : Request → Call W HttpResponse
  pub url_text : Url → String
  -- the first 64 KiB of a body
  pub limited : String → String
