-- ===== src/Relay/Responses.antt =====
-- relay/http.go: the answer that ServeHTTP makes of the backends' responses, in the order in which they
-- come. A backend whose `post` fails gives none.
pub mod Laws
pub mod Order
use influxdb_relay.Base.{ℕ, ◌/◌, Option, none, some, List, [], ◌∷◌, if◌then◌else◌, ◌==◌}
use influxdb_relay.Relay.Retry.{Response}

pub data Answer : Type 0 where
  -- 204
  no_content : Answer
  -- a backend's response, written back by responseData.Write
  passes : Response → Answer
  -- 503, unable to write points
  unavailable : Answer

-- After the loop.
unfoldable pub no_success : Option Response → Answer
no_success none = unavailable
no_success (some r) = passes r

-- The loop, with `errResponse`.
unfoldable pub select : Option Response → List Response → Answer
select err_response [] = no_success err_response
select err_response (r ∷ rs) =
    let rest = select (some r) rs in
    if r.status_code / 100 == 2
    then no_content
    else if r.status_code / 100 == 4
    then passes r
    else rest

unfoldable pub answer : List Response → Answer
answer = select none
