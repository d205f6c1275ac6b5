-- ===== src/Relay/Handler/Laws.antt =====
-- What a client may conclude from its answer.
use influxdb_relay.Base.{
  ◌/◌, ◌≡◌, ◌⊎◌, inl, inr, refl, ◌==◌, String, Option, none, some, List, [], ◌∷◌, arith, Bool-cases,
}
use influxdb_relay.Relay.Buffer.{Bytes}
use influxdb_relay.Relay.Retry.{Response, Poster}
use influxdb_relay.Relay.Serve.{
  Request, Libraries, Handled, pong, fails, options, panics_after, forwards, serve,
}
use influxdb_relay.Relay.Serve.Laws.{Forwards, serve-Forwards}
use influxdb_relay.Relay.Responses.{Answer, no_content, select, no_success, answer}
use influxdb_relay.Relay.Handler.{with_response, responses, late, ask_backends, serve_http}

-- Some backend answered these bytes, query and authorization with a 2xx.
abbrev pub SomeAccepts : Bytes → String → String → List Poster → Type 0
SomeAccepts out query auth [] = ⊥
SomeAccepts out query auth (b ∷ bs) =
    ((r : Response) × (b out query auth ≡ some r) × (r.status_code / 100 ≡ 2))
    ⊎ SomeAccepts out query auth bs

-- Some response is a 2xx.
abbrev SomeSuccess : List Response → Type 0
SomeSuccess [] = ⊥
SomeSuccess (r ∷ rs) = (r.status_code / 100 ≡ 2) ⊎ SomeSuccess rs

select-SomeSuccess :
    (e : Option Response) (rs : List Response) → select e rs ≡ no_content → SomeSuccess rs
unfolding select no_success
select-SomeSuccess none [] h = ground arith
select-SomeSuccess (some r) [] h = ground arith
select-SomeSuccess e (r ∷ rs) h = elim (Bool-cases (r.status_code / 100 == 2)) [
  | inl g ↦ inl (ground arith)
  | inr g ↦ elim (Bool-cases (r.status_code / 100 == 4)) [
    | inl f ↦ ground arith
    | inr f ↦ inr (select-SomeSuccess (some r) rs (ground arith))
  ]
]

with_response-SomeSuccess :
    (o : Option Response) (rs : List Response)
    → SomeSuccess (with_response o rs)
    → ((r : Response) × (o ≡ some r) × (r.status_code / 100 ≡ 2)) ⊎ SomeSuccess rs
unfolding with_response
with_response-SomeSuccess none rs h = inr h
with_response-SomeSuccess (some r) rs (inl h) = inl (r, refl, h)
with_response-SomeSuccess (some r) rs (inr h) = inr h

responses-SomeAccepts :
    (backends : List Poster) (out : Bytes) (query auth : String)
    → SomeSuccess (responses backends out query auth)
    → SomeAccepts out query auth backends
unfolding responses
responses-SomeAccepts [] out query auth h = h
responses-SomeAccepts (b ∷ bs) out query auth h =
    elim (with_response-SomeSuccess (b out query auth) (responses bs out query auth) h) [
      | inl here ↦ inl here
      | inr later ↦ inr (responses-SomeAccepts bs out query auth later)
    ]

-- What an answer of 204 after the backends were asked came from.
ask_backends-no_content :
    (backends : List Poster) (h : Handled)
    → ask_backends backends h ≡ late no_content
    → (out : Bytes) × (query : String) × (auth : String) × (h ≡ forwards out query auth)
      × SomeAccepts out query auth backends
unfolding ask_backends answer
ask_backends-no_content backends pong e = ground arith
ask_backends-no_content backends (fails code message) e = ground arith
ask_backends-no_content backends options e = ground arith
ask_backends-no_content backends (panics_after code message) e = ground arith
ask_backends-no_content backends (forwards out query auth) e = (
  out,
  query,
  auth,
  refl,
  responses-SomeAccepts backends out query auth (select-SomeSuccess none _ (late_is e)),
)
  where
    late_is : {a b : Answer} → late a ≡ late b → a ≡ b
    late_is e = cc

-- Where a write is answered with 204, whatever the order in which the backends' calls ended: it was a POST to
-- /write with a database and a body that was read and parsed, and some backend answered exactly its
-- printed points, its completed query and its authorization with a 2xx.
pub serve_http-SomeAccepts :
    {Point : Type 0} (libs : Libraries Point) (rp : String) (backends : List Poster) (r : Request)
    → serve_http libs rp backends r ≡ late no_content
    → (out : Bytes) × (query : String) × (auth : String) × Forwards libs rp r out query auth
      × SomeAccepts out query auth backends
unfolding serve_http
serve_http-SomeAccepts libs rp backends r e =
    let (out, query, auth, sent, accepted) = ask_backends-no_content backends (serve libs rp r) e in
    (out, query, auth, serve-Forwards libs rp r out query auth sent, accepted)
