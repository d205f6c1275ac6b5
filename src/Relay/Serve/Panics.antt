-- ===== src/Relay/Serve/Panics.antt =====
-- When ServeHTTP panics.
use influxdb_relay.Base.{
  ℕ, String, ◌≡◌, ◌≢◌, ◌↔◌, refl, Option, none, some, List, inl, inr, arith, eq_iff, Bool-cases,
}
use influxdb_relay.Relay.Buffer.{Bytes}
use influxdb_relay.Relay.Serve.{
  Values, Request, Libraries, panics_after, get, with_policy, serve_points, serve_body, serve_gzip,
  serve_write, serve,
}
use influxdb_relay.Relay.Serve.Laws.{serve-bad_gzip}
use text.Mathlib.Text.{◌==◌ as str_eq}

module _ {Point : Type 0} (libs : Libraries Point) where
  -- A POST to /write that names a database and says that its body is gzip, which it is not.
  abbrev pub IsBadGzip : Request → Type 0
  IsBadGzip r =
      (r.path ≡ "/write")
      × (r.method ≡ "POST")
      × (get "db" r.params ≢ "")
      × (r.content_encoding ≡ "gzip")
      × (libs.gunzip r.body ≡ none)

  serve_points-panics :
      (r : Request) (params : Values) (precision : String) (o : Option (List Point)) (code : ℕ)
      (message : String)
      → serve_points libs r params precision o ≢ panics_after code message
  unfolding serve_points
  serve_points-panics r params precision none code message h = ground arith
  serve_points-panics r params precision (some points) code message h = ground arith

  serve_body-panics :
      (r : Request) (params : Values) (body : Option Bytes) (code : ℕ) (message : String)
      → serve_body libs r params body ≢ panics_after code message
  unfolding serve_body
  serve_body-panics r params none code message h = ground arith
  serve_body-panics r params (some text) code message h =
      serve_points-panics r params _ _ code message h

  serve_gzip-panics :
      (r : Request) (params : Values) (o : Option (Option Bytes)) (code : ℕ) (message : String)
      → serve_gzip libs r params o ≡ panics_after code message
      → o ≡ none
  unfolding serve_gzip
  serve_gzip-panics r params none code message h = refl
  serve_gzip-panics r params (some body) code message h =
      absurd (serve_body-panics r params body code message h)

  serve_write-panics :
      (rp : String) (r : Request) (code : ℕ) (message : String)
      → serve_write libs rp r ≡ panics_after code message
      → (get "db" r.params ≢ "") × (r.content_encoding ≡ "gzip") × (libs.gunzip r.body ≡ none)
  unfolding serve_write
  serve_write-panics rp r code message h = elim (Bool-cases (str_eq (get "db" r.params) "")) [
    | inl d ↦ ground arith
    | inr d ↦ elim (Bool-cases (str_eq r.content_encoding "gzip")) [
      | inl z ↦ (
        ground (arith, eq_iff (get "db" r.params) ""),
        (eq_iff r.content_encoding "gzip").0 z,
        serve_gzip-panics r (with_policy rp r.params) _ code message (ground arith),
      )
      | inr z ↦
          absurd (serve_body-panics r (with_policy rp r.params) r.body code message (ground arith))
    ]
  ]

  serve-write_panics :
      (rp : String) (r : Request) (code : ℕ) (message : String)
      → serve libs rp r ≡ panics_after code message
      → (r.path ≡ "/write")
        × (r.method ≡ "POST")
        × (serve_write libs rp r ≡ panics_after code message)
  unfolding serve
  serve-write_panics rp r code message h =
      (ground (arith, eq_iff r.path "/write"), ground (arith, eq_iff r.method "POST"), ground arith)

  -- The handler panics for a POST to /write that names a database and says that its body is gzip, which it is
  -- not, and for no other request.
  pub serve-panics_iff :
      (rp : String) (r : Request)
      → ((code : ℕ) × (message : String) × (serve libs rp r ≡ panics_after code message))
        ↔ IsBadGzip r
  serve-panics_iff rp r = (
    (λ h.
        let (p, m, w) = serve-write_panics rp r h.0 h.1 h.2 in
        let (db, z, g) = serve_write-panics rp r h.0 h.1 w in (p, m, db, z, g)),
    λ b. (400, "unable to decode gzip body", serve-bad_gzip libs rp r b.0 b.1 b.2 b.3 b.4),
  )
