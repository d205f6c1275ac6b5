-- ===== src/Relay/Poster.antt =====
-- relay/http.go: simplePoster.post, which sends a write to its backend, and responseData.Write, which
-- writes a response back to the client. http.Header is Values with one value for a name, in canonical case.
pub mod Laws
use influxdb_relay.Base.{
  ℕ, String, Bool, true, false, not, Option, none, some, List, [], ◌∷◌, if◌then◌else◌, length,
}
use influxdb_relay.Base.Decimal.{show}
use influxdb_relay.Relay.Buffer.{Bytes}
use influxdb_relay.Relay.Retry.{Response, Poster}
use influxdb_relay.Relay.Serve.{Values, get, set}
use text.Mathlib.Text.{◌==◌ as str_eq}

pub record Outgoing : Type 0 where
  pub location : String
  pub query : String
  pub headers : Values
  pub body : Bytes

-- The body is none where it cannot be read.
pub record Incoming : Type 0 where
  pub status_code : ℕ
  pub headers : Values
  pub body : Option Bytes
  pub closes : Bool

-- net/http: whether http.NewRequest takes the location, and client.Do.
pub record Client : Type 0 where
  pub takes : String → Bool
  pub exchange : Outgoing → Option Incoming

unfoldable pub with_auth : String → Values → Values
with_auth auth headers = if str_eq auth "" then headers else set "Authorization" auth headers

unfoldable pub request : String → Bytes → String → String → Outgoing
request location buf query auth = record {
  location = location;
  query = query;
  headers =
      with_auth auth
        (set "Content-Length" (show (length buf)) (set "Content-Type" "text/plain" []));
  body = buf;
}

-- The names of the headers are spelled as in the source.
unfoldable pub read_body : Incoming → Option Bytes → Option Response
read_body i none = none
read_body i (some body) =
    if i.closes
    then some (record {
      content_type = get "Conent-Type" i.headers;
      content_encoding = get "Conent-Encoding" i.headers;
      status_code = i.status_code;
      body = body;
    })
    else none

unfoldable pub read_response : Option Incoming → Option Response
read_response none = none
read_response (some i) = read_body i i.body

-- simplePoster.post
unfoldable pub simple_post : Client → String → Poster
simple_post client location buf query auth =
    if client.takes location
    then read_response (client.exchange (request location buf query auth))
    else none

-- What a handler has written to its client.
pub record Written : Type 0 where
  pub headers : Values
  pub status_code : ℕ
  pub body : Bytes

unfoldable pub set_some : String → String → Values → Values
set_some name value headers = if str_eq value "" then headers else set name value headers

-- responseData.Write, over the headers that are set before.
unfoldable pub write_response : Response → Values → Written
write_response rd headers = record {
  headers = set "Content-Length" (show (length rd.body)) (
      set_some "Content-Encoding" rd.content_encoding
        (set_some "Content-Type" rd.content_type headers));
  status_code = rd.status_code;
  body = rd.body;
}
