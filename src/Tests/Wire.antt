-- ===== src/Tests/Wire.antt =====
-- What the relay sends and passes back.
use influxdb_relay.Base.{ℕ, true, ◌↔◌, none, some, List, [], ◌∷◌, ◌≡◌, refl}
use influxdb_relay.Base.Decimal.{show}
use influxdb_relay.Relay.Buffer.{Bytes}
use influxdb_relay.Relay.Retry.{Response}
use influxdb_relay.Relay.Serve.{Libraries, get, set, del, print_points}
use influxdb_relay.Relay.Udp
use influxdb_relay.Relay.Udp.{
  Outcome, done, too_large, post_from, last_index, before_index, send_last,
}
use influxdb_relay.Relay.Packets.{UdpBackend, post_each, post_points, post_packet}
use influxdb_relay.Relay.Packets.Laws.{EachSends, post_packet-EachSends}
use influxdb_relay.Relay.Poster.{
  Incoming, Client, request, with_auth, read_body, read_response, simple_post, write_response,
}
use influxdb_relay.Relay.Poster.Laws.{write_response-simple_post}
use influxdb_relay.Relay.Responses.{answer, no_content}
use influxdb_relay.Relay.Responses.Order.{answer-perm}
use mathlib.Core.List.{Perm, perm_append_comm}

-- Each byte of a packet is a point, which is printed as it is.
abbrev points_of : Bytes → List ℕ
points_of [] = []
points_of (x ∷ xs) = x ∷ points_of xs

abbrev libs : Libraries ℕ
libs = record {
  gunzip = λ body. none;
  encode = λ params. "";
  parse = λ payload precision. some (points_of payload);
  print = λ precision p. p ∷ [];
}

abbrev backends : List UdpBackend
backends =
    record { name = "narrow"; send = λ sent payload. true; mtu = 1 }
    ∷ record { name = "wide"; send = λ sent payload. true; mtu = 5 }
    ∷ []

packets :
    post_packet libs backends "ns" (65 ∷ 66 ∷ 67 ∷ [])
    ≡ some ([], too_large) ∷ some ((65 ∷ 10 ∷ 66 ∷ 10 ∷ []) ∷ (67 ∷ 10 ∷ []) ∷ [], done) ∷ []
unfolding post_packet post_points post_each print_points Udp.post post_from last_index before_index
    send_last
packets = refl

post_packet-EachSends_example :
    EachSends
      (print_points libs "ns" (65 ∷ 66 ∷ 67 ∷ []))
      backends
      (post_packet libs backends "ns" (65 ∷ 66 ∷ 67 ∷ []))
post_packet-EachSends_example =
    post_packet-EachSends libs backends "ns" (65 ∷ 66 ∷ 67 ∷ []) (65 ∷ 66 ∷ 67 ∷ []) refl

abbrev bad_request : Incoming
bad_request = record {
  status_code = 400;
  headers = ("Content-Type", "application/json") ∷ [];
  body = some (123 ∷ 125 ∷ []);
  closes = true;
}

abbrev client : Client
client = record { takes = λ location. true; exchange = λ outgoing. some bad_request }

abbrev passed : Response
passed = record {
  content_type = "";
  content_encoding = "";
  status_code = 400;
  body = 123 ∷ 125 ∷ [];
}

posted : simple_post client "http://a/write" (65 ∷ []) "db=a" "token" ≡ some passed
unfolding simple_post read_response read_body get
posted = refl

outgoing :
    (request "http://a/write" (65 ∷ []) "db=a" "token").headers
    ≡ ("Authorization", "token") ∷ ("Content-Length", "1") ∷ ("Content-Type", "text/plain") ∷ []
unfolding request with_auth set del show
outgoing = refl

no_type :
    (get "Conent-Type" bad_request.headers ≡ "") × (get "Conent-Encoding" bad_request.headers ≡ "")
unfolding get
no_type = (refl, refl)

write_response-simple_post_example :
    (bad_request.body ≡ some passed.body)
    × (write_response passed [] ≡ record {
      headers = ("Content-Length", show 2) ∷ [];
      status_code = 400;
      body = 123 ∷ 125 ∷ [];
    })
write_response-simple_post_example =
    write_response-simple_post client "http://a/write" "db=a" "token" (65 ∷ []) bad_request passed
      refl no_type.0 no_type.1 posted

abbrev reply : ℕ → Response
reply code = record { content_type = ""; content_encoding = ""; status_code = code; body = [] }

turned_round : Perm (reply 500 ∷ reply 204 ∷ []) (reply 204 ∷ reply 500 ∷ [])
turned_round = perm_append_comm (reply 500 ∷ []) (reply 204 ∷ [])

answer-perm_example :
    (answer (reply 500 ∷ reply 204 ∷ []) ≡ no_content)
    ↔ (answer (reply 204 ∷ reply 500 ∷ []) ≡ no_content)
answer-perm_example = answer-perm turned_round (refl, (refl, tt))
