-- ===== src/Relay/Responses/Laws.antt =====
-- Which answer the client gets, and that the order of the responses seldom matters.
use influxdb_relay.Base.{
  ◌/◌, ◌≡◌, inl, inr, refl, Bool, true, false, not, ◌&&◌, ◌||◌, Option, none, some, List, [], ◌∷◌,
  ◌++◌, if◌then◌else◌, ◌==◌, All, arith, Bool-cases,
}
use influxdb_relay.Relay.Retry.{Response}
use influxdb_relay.Relay.Responses.{no_content, passes, no_success, select, answer}

-- Neither a success nor the client's fault.
abbrev pub undecided : Response → Bool
undecided r = not (r.status_code / 100 == 2) && not (r.status_code / 100 == 4)

select_past :
    (e : Option Response) (r : Response) (rs : List Response)
    → undecided r ≡ true
    → select e (r ∷ rs) ≡ select (some r) rs
unfolding select
select_past e r rs h = ground arith

select-first :
    (e : Option Response) (pre rest : List Response) (r : Response)
    → All (λ s. undecided s ≡ true) pre
    → undecided r ≡ false
    → select e (pre ++ (r ∷ rest)) ≡ (if r.status_code / 100 == 2 then no_content else passes r)
unfolding select
select-first e [] rest r h d = ground arith
select-first e (s ∷ pre) rest r h d =
    rw (select_past e s (pre ++ (r ∷ rest)) h.0) (select-first (some s) pre rest r h.1 d)

-- The first response of class 2xx or 4xx decides: a 2xx gives 204, a 4xx is passed on, whatever came before
-- or comes after.
pub answer-first :
    (pre rest : List Response) (r : Response)
    → All (λ s. undecided s ≡ true) pre
    → undecided r ≡ false
    → answer (pre ++ (r ∷ rest)) ≡ (if r.status_code / 100 == 2 then no_content else passes r)
unfolding answer
answer-first = select-first none

-- The last of the responses, if there are any.
unfoldable pub last_or : Option Response → List Response → Option Response
last_or e [] = e
last_or e (r ∷ rs) = last_or (some r) rs

unfoldable pub any_success : List Response → Bool
any_success [] = false
any_success (r ∷ rs) = (r.status_code / 100 == 2) || any_success rs

select_any :
    (e : Option Response) (rs : List Response)
    → All (λ r. (r.status_code / 100 == 4) ≡ false) rs
    → select e rs ≡ (if any_success rs then no_content else no_success (last_or e rs))
unfolding select any_success last_or
select_any e [] h = refl
select_any e (r ∷ rs) h =
    let rest = select_any (some r) rs h.1 in
    elim (Bool-cases (r.status_code / 100 == 2)) [ inl g ↦ rw g refl | inr g ↦ rw (g, h.0) rest ]

-- Where no response is a 4xx, the client gets 204 exactly if some response is a 2xx, wherever it stands;
-- else the last response is passed on, or 503 if there is none.
pub answer_any :
    (rs : List Response)
    → All (λ r. (r.status_code / 100 == 4) ≡ false) rs
    → answer rs ≡ (if any_success rs then no_content else no_success (last_or none rs))
unfolding answer
answer_any = select_any none
