-- ===== src/Relay/Handler.antt =====
-- relay/http.go: the whole of ServeHTTP, from the request to the answer. The backends are given in the order in
-- which their calls end; one that returns an error puts nothing on the channel.
pub mod Laws
use influxdb_relay.Base.{String, Option, none, some, List, [], ◌∷◌}
use influxdb_relay.Relay.Buffer.{Bytes}
use influxdb_relay.Relay.Retry.{Response, Poster}
use influxdb_relay.Relay.Serve.{Request, Libraries, Handled, forwards, serve}
use influxdb_relay.Relay.Responses.{Answer, answer}

-- What reaches the channel of responses.
unfoldable pub with_response : Option Response → List Response → List Response
with_response none rs = rs
with_response (some r) rs = r ∷ rs

unfoldable pub responses : List Poster → Bytes → String → String → List Response
responses [] out query auth = []
responses (b ∷ bs) out query auth = with_response (b out query auth) (responses bs out query auth)

-- An early end of the handler, or the answer after the backends were asked.
pub data Handling : Type 0 where
  early : Handled → Handling
  late : Answer → Handling

unfoldable pub ask_backends : List Poster → Handled → Handling
ask_backends backends (forwards out query auth) = late (answer (responses backends out query auth))
ask_backends backends h = early h

-- ServeHTTP
unfoldable pub serve_http :
    {Point : Type 0} → Libraries Point → String → List Poster → Request → Handling
serve_http libs rp backends r = ask_backends backends (serve libs rp r)
