-- ===== src/Relay/Serve/Laws.antt =====
-- Which requests reach the backends, and with what.
use influxdb_relay.Base.{
  String, false, ◌≡◌, ◌≢◌, refl, ap, ◌∙◌, Option, none, some, List, if◌then◌else◌, inl, inr, arith,
  eq_iff, Bool-cases,
}
use influxdb_relay.Relay.Buffer.{Bytes}
use influxdb_relay.Relay.Serve.{
  Values, Request, Libraries, panics_after, forwards, get, with_policy, print_points, serve_points,
  serve_body, serve_gzip, serve_write, serve,
}
use text.Mathlib.Text.{◌==◌ as str_eq}

module _ {Point : Type 0} (libs : Libraries Point) where
  -- The body as the handler reads it.
  abbrev pub text_of : Request → Option (Option Bytes)
  text_of r = if str_eq r.content_encoding "gzip" then libs.gunzip r.body else some r.body

  -- What a request must be to be forwarded, and what is.
  abbrev pub Forwards : String → Request → Bytes → String → String → Type 0
  Forwards rp r out query auth =
      let params = with_policy rp r.params in
      (r.path ≡ "/write")
      × (r.method ≡ "POST")
      × (get "db" r.params ≢ "")
      × ((text : Bytes) × (points : List Point) × (text_of r ≡ some (some text))
          × (libs.parse text (get "precision" params) ≡ some points)
          × (out ≡ print_points libs (get "precision" params) points)
          × (query ≡ libs.encode params)
          × (auth ≡ r.authorization))

  serve_points-forwards :
      (r : Request) (params : Values) (precision : String) (o : Option (List Point)) (out : Bytes)
      (query auth : String)
      → serve_points libs r params precision o ≡ forwards out query auth
      → (points : List Point) × (o ≡ some points)
        × (out ≡ print_points libs precision points)
        × (query ≡ libs.encode params)
        × (auth ≡ r.authorization)
  unfolding serve_points
  serve_points-forwards r params precision none out query auth h = ground arith
  serve_points-forwards r params precision (some points) out query auth h =
      (points, refl, ground arith, ground arith, ground arith)

  serve_body-forwards :
      (r : Request) (params : Values) (body : Option Bytes) (out : Bytes) (query auth : String)
      → serve_body libs r params body ≡ forwards out query auth
      → (text : Bytes) × (points : List Point) × (body ≡ some text)
        × (libs.parse text (get "precision" params) ≡ some points)
        × (out ≡ print_points libs (get "precision" params) points)
        × (query ≡ libs.encode params)
        × (auth ≡ r.authorization)
  unfolding serve_body
  serve_body-forwards r params none out query auth h = ground arith
  serve_body-forwards r params (some text) out query auth h =
      let (points, e, o, q, a) =
        serve_points-forwards r params (get "precision" params) _ out query auth h in
      (text, points, refl, e, o, q, a)

  serve_gzip-forwards :
      (r : Request) (params : Values) (o : Option (Option Bytes)) (out : Bytes)
      (query auth : String)
      → serve_gzip libs r params o ≡ forwards out query auth
      → (body : Option Bytes) × (o ≡ some body)
        × (serve_body libs r params body ≡ forwards out query auth)
  unfolding serve_gzip
  serve_gzip-forwards r params none out query auth h = ground arith
  serve_gzip-forwards r params (some body) out query auth h = (body, refl, h)

  serve_write-body :
      (rp : String) (r : Request) (out : Bytes) (query auth : String)
      → serve_write libs rp r ≡ forwards out query auth
      → (get "db" r.params ≢ "")
        × ((body : Option Bytes) × (text_of r ≡ some body)
            × (serve_body libs r (with_policy rp r.params) body ≡ forwards out query auth))
  unfolding serve_write
  serve_write-body rp r out query auth h = elim (Bool-cases (str_eq (get "db" r.params) "")) [
    | inl d ↦ ground arith
    | inr d ↦ (
      ground (arith, eq_iff (get "db" r.params) ""),
      elim (Bool-cases (str_eq r.content_encoding "gzip")) [
        | inl z ↦
            let (body, e, b) =
              serve_gzip-forwards r (with_policy rp r.params) (libs.gunzip r.body) out query auth
                (ground arith) in
            (body, ground arith, b)
        | inr z ↦ (r.body, ground arith, ground arith)
      ],
    )
  ]

  serve-write :
      (rp : String) (r : Request) (out : Bytes) (query auth : String)
      → serve libs rp r ≡ forwards out query auth
      → (r.path ≡ "/write")
        × (r.method ≡ "POST")
        × (serve_write libs rp r ≡ forwards out query auth)
  unfolding serve
  serve-write rp r out query auth h =
      (ground (arith, eq_iff r.path "/write"), ground (arith, eq_iff r.method "POST"), ground arith)

  -- What is forwarded goes to /write by POST, names a database and has a body that could be read and
  -- parsed. What every backend gets are its points, each printed on a line, the query with the relay's retention
  -- policy where the client gave none, and the client's authorization.
  pub serve-Forwards :
      (rp : String) (r : Request) (out : Bytes) (query auth : String)
      → serve libs rp r ≡ forwards out query auth
      → Forwards rp r out query auth
  serve-Forwards rp r out query auth h =
      let (p, m, w) = serve-write rp r out query auth h in
      let (db, (body, e, b)) = serve_write-body rp r out query auth w in
      let (text, points, t, parsed, o, q, a) =
        serve_body-forwards r (with_policy rp r.params) body out query auth b in
      (p, m, db, (text, points, e ∙ ap some t, parsed, o, q, a))

  to_write :
      (rp : String) (r : Request)
      → r.path ≡ "/write"
      → r.method ≡ "POST"
      → serve libs rp r ≡ serve_write libs rp r
  unfolding serve
  to_write rp r p m = rw (p, m) refl

  -- A POST to /write that names a database and says that its body is gzip, which it is not, makes the
  -- handler panic after jsonError.
  pub serve-bad_gzip :
      (rp : String) (r : Request)
      → r.path ≡ "/write"
      → r.method ≡ "POST"
      → get "db" r.params ≢ ""
      → r.content_encoding ≡ "gzip"
      → libs.gunzip r.body ≡ none
      → serve libs rp r ≡ panics_after 400 "unable to decode gzip body"
  unfolding serve_write serve_gzip
  serve-bad_gzip rp r p m db z g =
      let named : str_eq (get "db" r.params) "" ≡ false =
        ground (arith, eq_iff (get "db" r.params) "") in
      rw (to_write rp r p m, named, z, g) refl
