-- ===== src/Relay/System/Chain.antt =====
-- All batches of a retry buffer in the order in which they were made: done, in hand, in the list.
use influxdb_relay.Base.{
  ℕ, true, String, some, List, [], ◌∷◌, ◌++◌, ◌≡◌, refl, subst, inl, inr, ◌==◌, All, arith,
  Bool-cases,
}
use influxdb_relay.Relay.Buffer.{Bytes, Batch}
use influxdb_relay.Relay.Buffer.Ids.{Carries, Holds}
use influxdb_relay.Relay.Retry.{Response, is_good}
use influxdb_relay.Relay.System.{Runner, rests, sends, resets, releases, Shared, delivered_at}

abbrev pub hand : Runner → List Batch
hand rests = []
hand (sends b interval) = b ∷ []
hand (resets b r) = b ∷ []
hand (releases b r) = b ∷ []

abbrev pub carried : List (Batch × Response) → List Batch
carried [] = []
carried ((b, r) ∷ ds) = b ∷ carried ds

abbrev pub chain : Shared → List Batch
chain m = carried m.delivered ++ (hand m.runner ++ m.list.batches)

pub carried-snoc :
    (ds : List (Batch × Response)) (b : Batch) (r : Response)
    → carried (ds ++ ((b, r) ∷ [])) ≡ carried ds ++ (b ∷ [])
carried-snoc [] b r = refl
carried-snoc ((c, s) ∷ ds) b r = rw (carried-snoc ds b r) refl

-- The response that is found under a number is that of a batch which carries what the number holds.
pub delivered_at-Holds :
    (t : ℕ) (buf : Bytes) (query auth : String) (ds : List (Batch × Response)) (rest : List Batch)
    (b : Batch) (r : Response)
    → delivered_at t ds ≡ some (b, r)
    → Holds t buf query auth (carried ds ++ rest)
    → Carries buf query auth b
unfolding delivered_at
delivered_at-Holds t buf query auth [] rest b r e h = ground arith
delivered_at-Holds t buf query auth ((c, s) ∷ ds) rest b r e (inl h) =
    let same : c ≡ b = ground (arith, h.0) in subst (λ x. Carries buf query auth x) same h.1
delivered_at-Holds t buf query auth ((c, s) ∷ ds) rest b r e (inr h) =
    delivered_at-Holds t buf query auth ds rest b r (ground (arith, h.0)) h.1

pub delivered_at-snoc :
    (t : ℕ) (ds : List (Batch × Response)) (d p : Batch × Response)
    → delivered_at t ds ≡ some p
    → delivered_at t (ds ++ (d ∷ [])) ≡ some p
unfolding delivered_at
delivered_at-snoc t [] d p e = ground arith
delivered_at-snoc t ((c, s) ∷ ds) d p e = elim (Bool-cases (c.id == t)) [
  | inl g ↦ rw g (ground arith)
  | inr g ↦ rw g (delivered_at-snoc t ds d p (ground arith))
]

-- What is done was done by a good response.
pub delivered_at-good :
    (t : ℕ) (ds : List (Batch × Response)) (b : Batch) (r : Response)
    → All (λ d. is_good (some d.1) ≡ true) ds
    → delivered_at t ds ≡ some (b, r)
    → is_good (some r) ≡ true
unfolding delivered_at
delivered_at-good t [] b r h e = ground arith
delivered_at-good t ((c, s) ∷ ds) b r h e = elim (Bool-cases (c.id == t)) [
  | inl g ↦ let same : s ≡ r = ground arith in subst (λ x. is_good (some x) ≡ true) same h.0
  | inr g ↦ delivered_at-good t ds b r h.1 (ground arith)
]
