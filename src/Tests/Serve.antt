-- ===== src/Tests/Serve.antt =====
-- The handler of writes, over a library that takes a body's lines for points.
use influxdb_relay.Base.{
  ℕ, ◌↔◌, String, String, Option, none, some, List, [], ◌∷◌, ◌≡◌, ◌≢◌, refl, arith, eq_iff,
}
use influxdb_relay.Relay.Buffer.{Bytes}
use influxdb_relay.Relay.Retry.{Poster}
use influxdb_relay.Relay.Responses.{answer, select, no_success, no_content, unavailable}
use influxdb_relay.Relay.Handler.{late, ask_backends, responses, with_response, serve_http}
use influxdb_relay.Relay.Handler.Laws.{SomeAccepts, serve_http-SomeAccepts}
use influxdb_relay.Relay.Serve.{
  Values, Request, Libraries, pong, fails, options, panics_after, forwards, get, del, set,
  with_policy, print_points, serve_points, serve_body, serve_gzip, serve_write, serve,
}
use influxdb_relay.Relay.Serve.Policy.{with_policy-get}
use influxdb_relay.Relay.Serve.Panics.{IsBadGzip, serve-panics_iff}
use influxdb_relay.Relay.Serve.Laws.{Forwards, serve-Forwards, serve-bad_gzip}

-- One point for a body that is not empty; no body is gzip.
abbrev parse_one : Bytes → String → Option (List Bytes)
parse_one [] precision = some []
parse_one (x ∷ xs) precision = some ((x ∷ xs) ∷ [])

abbrev first_value : Values → String
first_value [] = ""
first_value ((k, v) ∷ ps) = v

abbrev libs : Libraries Bytes
libs = record {
  gunzip = λ body. none;
  encode = first_value;
  parse = parse_one;
  print = λ precision p. p;
}

abbrev request : String → String → String → Request
request path method encoding = record {
  path = path;
  method = method;
  params = ("db", "a") ∷ [];
  content_encoding = encoding;
  authorization = "token";
  body = some (65 ∷ []);
}

handled :
    (serve libs "" (request "/ping" "GET" "") ≡ pong)
    × (serve libs "" (request "/query" "POST" "") ≡ fails 404 "invalid write endpoint")
    × (serve libs "" (request "/write" "GET" "") ≡ fails 405 "invalid write method")
    × (serve libs "" (request "/write" "OPTIONS" "") ≡ options)
    × (serve libs "" (request "/write" "POST" "gzip")
        ≡ panics_after 400 "unable to decode gzip body")
    × (serve libs "week" (request "/write" "POST" "") ≡ forwards (65 ∷ 10 ∷ []) "week" "token")
unfolding serve serve_write serve_gzip serve_body serve_points print_points with_policy get set del
handled = (refl, refl, refl, refl, refl, refl)

forwarded : serve libs "week" (request "/write" "POST" "") ≡ forwards (65 ∷ 10 ∷ []) "week" "token"
unfolding serve serve_write serve_gzip serve_body serve_points print_points with_policy get set del
forwarded = refl

serve-Forwards_example :
    Forwards libs "week" (request "/write" "POST" "") (65 ∷ 10 ∷ []) "week" "token"
serve-Forwards_example =
    serve-Forwards libs "week" (request "/write" "POST" "") (65 ∷ 10 ∷ []) "week" "token" forwarded

named : get "db" (("db", "a") ∷ []) ≢ ""
unfolding get
named = ground (arith, eq_iff "a" "")

bad_gzip :
    serve libs "week" (request "/write" "POST" "gzip")
    ≡ panics_after 400 "unable to decode gzip body"
bad_gzip = serve-bad_gzip libs "week" (request "/write" "POST" "gzip") refl refl named refl refl

serve-panics_iff_example :
    ((code : ℕ) × (message : String) × (serve libs "week" (request "/write" "POST" "gzip")
        ≡ panics_after code message))
    ↔ IsBadGzip libs (request "/write" "POST" "gzip")
serve-panics_iff_example = serve-panics_iff libs "week" (request "/write" "POST" "gzip")

-- The client's own policy is kept, and the relay's is filled in.
with_policy-get_example : get "rp" (with_policy "week" (("db", "a") ∷ ("rp", "day") ∷ [])) ≡ "day"
unfolding get
with_policy-get_example = with_policy-get "week" (("db", "a") ∷ ("rp", "day") ∷ []) "rp"

abbrev accepting : Poster
accepting out query auth =
    some (record { content_type = ""; content_encoding = ""; status_code = 204; body = [] })

abbrev unreachable : Poster
unreachable out query auth = none

answered_204 :
    serve_http libs "week" (unreachable ∷ accepting ∷ []) (request "/write" "POST" "")
    ≡ late no_content
unfolding serve_http ask_backends responses with_response answer select serve serve_write serve_body
    serve_points print_points with_policy get set del
answered_204 = refl

-- Where no backend can be reached the answer is 503.
answered_503 :
    serve_http libs "week" (unreachable ∷ unreachable ∷ []) (request "/write" "POST" "")
    ≡ late unavailable
unfolding serve_http ask_backends responses with_response answer select no_success serve serve_write
    serve_body serve_points print_points with_policy get set del
answered_503 = refl

serve_http-SomeAccepts_example :
    (out : Bytes) × (query : String) × (auth : String) × Forwards libs "week"
      (request "/write" "POST" "")
      out
      query
      auth
    × SomeAccepts out query auth (unreachable ∷ accepting ∷ [])
serve_http-SomeAccepts_example =
    serve_http-SomeAccepts libs "week" (unreachable ∷ accepting ∷ []) (request "/write" "POST" "")
      answered_204
