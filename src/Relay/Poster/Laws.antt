-- ===== src/Relay/Poster/Laws.antt =====
-- What of a backend's response comes back to the client.
use influxdb_relay.Base.{
  ℕ, String, Option, none, some, [], ◌∷◌, ◌≡◌, ◌∙◌, arith, length, inl, inr, Bool-cases,
}
use influxdb_relay.Base.Decimal.{show}
use influxdb_relay.Relay.Buffer.{Bytes}
use influxdb_relay.Relay.Retry.{Response}
use influxdb_relay.Relay.Serve.{get, set, del}
use influxdb_relay.Relay.Poster.{
  Incoming, Client, request, read_body, read_response, simple_post, set_some, write_response,
}

read_body-fields :
    (i : Incoming) (o : Option Bytes) (rd : Response)
    → read_body i o ≡ some rd
    → (o ≡ some rd.body)
      × (rd.status_code ≡ i.status_code)
      × (rd.content_type ≡ get "Conent-Type" i.headers)
      × (rd.content_encoding ≡ get "Conent-Encoding" i.headers)
unfolding read_body
read_body-fields i none rd e = ground arith
read_body-fields i (some body) rd e = (ground arith, ground arith, ground arith, ground arith)

came_back :
    (client : Client) (location query auth : String) (buf : Bytes) (i : Incoming) (rd : Response)
    → client.exchange (request location buf query auth) ≡ some i
    → simple_post client location buf query auth ≡ some rd
    → read_body i i.body ≡ some rd
unfolding simple_post read_response
came_back client location query auth buf i rd sent e = elim (Bool-cases (client.takes location)) [
  | inl t ↦ ground arith
  | inr t ↦ ground arith
]

bare :
    (rd : Response) (code : ℕ)
    → rd.status_code ≡ code
    → rd.content_type ≡ ""
    → rd.content_encoding ≡ ""
    → write_response rd [] ≡ record {
      headers = ("Content-Length", show (length rd.body)) ∷ [];
      status_code = code;
      body = rd.body;
    }
unfolding write_response set_some set del
bare rd code s t n = simp (s, t, n)

-- A backend's answer without headers of those misspelled names comes back with its status and its body, and
-- with no header but the body's length: its Content-Type and Content-Encoding are lost.
pub write_response-simple_post :
    (client : Client) (location query auth : String) (buf : Bytes) (i : Incoming) (rd : Response)
    → client.exchange (request location buf query auth) ≡ some i
    → get "Conent-Type" i.headers ≡ ""
    → get "Conent-Encoding" i.headers ≡ ""
    → simple_post client location buf query auth ≡ some rd
    → (i.body ≡ some rd.body)
      × (write_response rd [] ≡ record {
        headers = ("Content-Length", show (length rd.body)) ∷ [];
        status_code = i.status_code;
        body = rd.body;
      })
write_response-simple_post client location query auth buf i rd sent no_type no_encoding e =
    let (b, s, t, n) =
      read_body-fields i i.body rd (came_back client location query auth buf i rd sent e) in
    (b, bare rd i.status_code s (t ∙ no_type) (n ∙ no_encoding))
