-- ===== src/Relay/Serve.antt =====
-- relay/http.go: what ServeHTTP makes of a request before the backends are asked.
pub mod Laws
pub mod Policy
pub mod Panics
use influxdb_relay.Base.{
  ℕ, String, Bool, true, false, not, ◌&&◌, ◌||◌, Option, none, some, List, [], ◌∷◌, ◌++◌,
  if◌then◌else◌,
}
use influxdb_relay.Relay.Buffer.{Bytes}
use text.Mathlib.Text.{◌==◌ as str_eq}

-- url.Values, as pairs of a key and a value.
abbrev pub Values : Type 0
Values = List (String × String)

-- The parts of a request that the handler reads. The body is none where reading it fails.
pub record Request : Type 0 where
  pub path : String
  pub method : String
  pub params : Values
  pub content_encoding : String
  pub authorization : String
  pub body : Option Bytes

-- compress/gzip, url.Values.Encode and the points of the InfluxDB client library; the time that parsing
-- takes for points that have none is part of `parse`.
pub record Libraries (Point : Type 0) : Type 0 where
  pub gunzip : Option Bytes → Option (Option Bytes)
  pub encode : Values → String
  pub parse : Bytes → String → Option (List Point)
  pub print : String → Point → Bytes

-- What the handler does: the answer to a ping, jsonError, the answer to OPTIONS, a panic after jsonError, or the bytes,
-- query and authorization that go to every backend.
pub data Handled : Type 0 where
  pong : Handled
  fails : ℕ → String → Handled
  options : Handled
  panics_after : ℕ → String → Handled
  forwards : Bytes → String → String → Handled

-- Values.Get
unfoldable pub get : String → Values → String
get key [] = ""
get key ((k, v) ∷ ps) = if str_eq k key then v else get key ps

unfoldable pub del : String → Values → Values
del key [] = []
del key ((k, v) ∷ ps) = let rest = del key ps in if str_eq k key then rest else (k, v) ∷ rest

-- Values.Set
unfoldable pub set : String → String → Values → Values
set key value ps = (key, value) ∷ del key ps

unfoldable pub with_policy : String → Values → Values
with_policy rp params =
    if str_eq (get "rp" params) "" && not (str_eq rp "") then set "rp" rp params else params

module _ {Point : Type 0} (libs : Libraries Point) where
  unfoldable pub print_points : String → List Point → Bytes
  print_points precision [] = []
  print_points precision (p ∷ ps) = libs.print precision p ++ (10 ∷ print_points precision ps)

  unfoldable pub serve_points : Request → Values → String → Option (List Point) → Handled
  serve_points r params precision none = fails 400 "unable to parse points"
  serve_points r params precision (some points) =
      forwards (print_points precision points) (libs.encode params) r.authorization

  unfoldable pub serve_body : Request → Values → Option Bytes → Handled
  serve_body r params none = fails 500 "problem reading request body"
  serve_body r params (some text) =
      let precision = get "precision" params in
      serve_points r params precision (libs.parse text precision)

  -- After the error of gzip.NewReader the handler goes on with a nil reader.
  unfoldable pub serve_gzip : Request → Values → Option (Option Bytes) → Handled
  serve_gzip r params none = panics_after 400 "unable to decode gzip body"
  serve_gzip r params (some body) = serve_body r params body

  unfoldable pub serve_write : String → Request → Handled
  serve_write rp r =
      let params = with_policy rp r.params in
      if str_eq (get "db" r.params) ""
      then fails 400 "missing parameter: db"
      else if str_eq r.content_encoding "gzip"
      then serve_gzip r params (libs.gunzip r.body)
      else serve_body r params r.body

  unfoldable pub serve : String → Request → Handled
  serve rp r =
      if str_eq r.path "/ping" && (str_eq r.method "GET" || str_eq r.method "HEAD")
      then pong
      else if not (str_eq r.path "/write")
      then fails 404 "invalid write endpoint"
      else if not (str_eq r.method "POST")
      then if str_eq r.method "OPTIONS" then options else fails 405 "invalid write method"
      else serve_write rp r
