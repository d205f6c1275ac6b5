-- ===== src/Relay/Udp/Laws.antt =====
-- The datagrams of a packet: what they hold and where they are cut.
use influxdb_relay.Base.{
  ℕ, zero, suc, ◌≤◌, ◌<◌, ◌≡◌, inl, inr, refl, sym, ap, ◌∙◌, Option, none, some, List, [], ◌∷◌,
  ◌++◌, ltb, ◌==◌, length, take, drop, All, arith, Bool-cases, Option-cases, take-append-drop,
  length-take, length-drop,
}
use influxdb_relay.Relay.Buffer.{Bytes}
use influxdb_relay.Relay.Udp.{
  Send, Outcome, done, too_large, failed, before_index, last_index, send_last, post_from, post,
}
use mathlib.Core.List.{append_assoc, append-nil}

unfoldable pub joined : List Bytes → Bytes
joined [] = []
joined (d ∷ ds) = d ++ joined ds

pub joined-snoc : (ds : List Bytes) (d : Bytes) → joined (ds ++ (d ∷ [])) ≡ joined ds ++ d
unfolding joined
joined-snoc [] d = append-nil d
joined-snoc (e ∷ ds) d = rw (joined-snoc ds d, append_assoc e (joined ds) d) refl

-- A datagram that is cut off: it fits and ends at the end of a line.
abbrev pub IsCut : ℕ → Bytes → Type 0
IsCut mtu d = (length d ≤ mtu) × ((front : Bytes) × (d ≡ front ++ (10 ∷ [])))

All-snoc {ℓ κ} :
    {A : Type ℓ} (P : A → Type κ) (xs : List A) (x : A) → All P xs → P x → All P (xs ++ (x ∷ []))
All-snoc P [] x h p = (p, tt)
All-snoc P (y ∷ xs) x h p = (h.0, All-snoc P xs x h.1 p)

-- The byte stands at an index, which is inside.
abbrev IsAt : ℕ → Bytes → ℕ → Type 0
IsAt c xs i = (i < length xs) × (take (suc i) xs ≡ take i xs ++ (c ∷ []))

IsAt-suc : (c x : ℕ) (xs : Bytes) (i : ℕ) → IsAt c xs i → IsAt c (x ∷ xs) (suc i)
IsAt-suc c x xs i h = (omega (arith, h.0), ap (x ∷◌) h.1)

before_index-IsAt :
    (c x : ℕ) (xs : Bytes) (o : Option ℕ) (i : ℕ)
    → ((j : ℕ) → o ≡ some j → IsAt c xs j)
    → before_index (x == c) o ≡ some i
    → IsAt c (x ∷ xs) i
unfolding before_index
before_index-IsAt c x xs (some j) zero later h = ground arith
before_index-IsAt c x xs (some j) (suc i) later h = IsAt-suc c x xs i (later i (ground arith))
before_index-IsAt c x xs none zero later h =
    (omega arith, (let same : x ≡ c = ground arith in rw same refl))
before_index-IsAt c x xs none (suc i) later h = ground arith

last_index-IsAt : (c : ℕ) (xs : Bytes) (i : ℕ) → last_index c xs ≡ some i → IsAt c xs i
unfolding last_index
last_index-IsAt c [] i h = ground arith
last_index-IsAt c (x ∷ xs) i h =
    before_index-IsAt c x xs (last_index c xs) i (last_index-IsAt c xs) h

take-take : (n m : ℕ) (xs : Bytes) → n ≤ m → take n (take m xs) ≡ take n xs
take-take zero m xs h = refl
take-take (suc n) zero xs h = ground arith
take-take (suc n) (suc m) [] h = refl
take-take (suc n) (suc m) (x ∷ xs) h = rw (take-take n m xs (omega arith)) refl

-- What a call may come to.
abbrev pub Posts : ℕ → Bytes → Option (List Bytes × Outcome) → Type 0
Posts mtu payload none = ⊥
Posts mtu payload (some (sent, done)) =
    (init : List Bytes) × (last : Bytes) × (sent ≡ init ++ (last ∷ []))
    × (joined sent ≡ payload)
    × All (IsCut mtu) init
    × (length last ≤ mtu)
Posts mtu payload (some (sent, too_large)) =
    (rest : Bytes) × (joined sent ++ rest ≡ payload)
    × All (IsCut mtu) sent
    × (mtu < length rest)
    × (last_index 10 (take mtu rest) ≡ none)
Posts mtu payload (some (sent, failed)) =
    (rest : Bytes) × (joined sent ++ rest ≡ payload) × All (IsCut mtu) sent

send_last-Posts :
    (send : Send) (mtu : ℕ) (sent : List Bytes) (whole payload : Bytes)
    → joined sent ++ payload ≡ whole
    → All (IsCut mtu) sent
    → length payload ≤ mtu
    → Posts mtu whole (some (send_last send sent payload))
unfolding send_last
send_last-Posts send mtu sent whole payload e cut fits = elim (Bool-cases (send sent payload)) [
  | inl s ↦ rw s (sent, payload, refl, joined-snoc sent payload ∙ e, cut, fits)
  | inr s ↦ rw s (payload, e, cut)
]

-- The ways of a round of the loop.
data Round (send : Send) (mtu fuel : ℕ) (sent : List Bytes) (payload : Bytes)
    : Option (List Bytes × Outcome) → Type 0 where
  last :
      length payload ≤ mtu → Round send mtu fuel sent payload (some (send_last send sent payload))
  gives_up :
      mtu < length payload
      → last_index 10 (take mtu payload) ≡ none
      → Round send mtu fuel sent payload (some (sent, too_large))
  fails : Round send mtu fuel sent payload (some (sent, failed))
  goes_on :
      (idx : ℕ)
      → last_index 10 (take mtu payload) ≡ some idx
      → Round send mtu fuel sent payload
          (post_from send mtu fuel (sent ++ (take (suc idx) payload ∷ [])) (drop (suc idx) payload))

post_from-Round :
    (send : Send) (mtu fuel : ℕ) (sent : List Bytes) (payload : Bytes)
    → Round send mtu fuel sent payload (post_from send mtu (suc fuel) sent payload)
unfolding post_from
post_from-Round send mtu fuel sent payload = elim (Bool-cases (ltb mtu (length payload))) [
  | inr s ↦ rw s (last (ground arith))
  | inl l ↦ elim (Option-cases (last_index 10 (take mtu payload))) [
    | inl n ↦ rw (l, n) (gives_up (ground arith) n)
    | inr (idx, e) ↦ elim (Bool-cases (send sent (take (suc idx) payload))) [
      | inl s ↦ rw (l, e, s) (goes_on idx e)
      | inr s ↦ rw (l, e, s) fails
    ]
  ]
]

IsCut-line :
    (mtu : ℕ) (payload : Bytes) (idx : ℕ)
    → IsAt 10 (take mtu payload) idx
    → IsCut mtu (take (suc idx) payload)
IsCut-line mtu payload idx h =
    let inside : suc idx ≤ mtu = omega (arith, length-take mtu payload, h.0) in
    (
      omega (arith, length-take (suc idx) payload),
      (take idx (take mtu payload), sym (take-take (suc idx) mtu payload inside) ∙ h.1),
    )

step-Posts :
    (send : Send) (mtu fuel : ℕ) (sent : List Bytes) (whole payload : Bytes)
    (o : Option (List Bytes × Outcome))
    → ((ds : List Bytes) (p : Bytes)
        → length p < length payload
        → joined ds ++ p ≡ whole
        → All (IsCut mtu) ds
        → Posts mtu whole (post_from send mtu fuel ds p))
    → joined sent ++ payload ≡ whole
    → All (IsCut mtu) sent
    → Round send mtu fuel sent payload o
    → Posts mtu whole o
step-Posts send mtu fuel sent whole payload o ih e cut (last fits) =
    send_last-Posts send mtu sent whole payload e cut fits
step-Posts send mtu fuel sent whole payload o ih e cut (gives_up over n) =
    (payload, e, cut, over, n)
step-Posts send mtu fuel sent whole payload o ih e cut fails = (payload, e, cut)
step-Posts send mtu fuel sent whole payload o ih e cut (goes_on idx at) =
    let here = last_index-IsAt 10 (take mtu payload) idx at in
    ih (sent ++ (take (suc idx) payload ∷ [])) (drop (suc idx) payload)
      (omega (arith, length-drop (suc idx) payload, length-take mtu payload, here.0))
      (rw
        (
          joined-snoc sent (take (suc idx) payload),
          append_assoc (joined sent) (take (suc idx) payload) (drop (suc idx) payload),
          take-append-drop (suc idx) payload,
        )
        e)
      (All-snoc (IsCut mtu) sent (take (suc idx) payload) cut (IsCut-line mtu payload idx here))

post_from-Posts :
    (send : Send) (mtu fuel : ℕ) (sent : List Bytes) (whole payload : Bytes)
    → length payload < fuel
    → joined sent ++ payload ≡ whole
    → All (IsCut mtu) sent
    → Posts mtu whole (post_from send mtu fuel sent payload)
post_from-Posts send mtu zero sent whole payload enough e cut = ground arith
post_from-Posts send mtu (suc fuel) sent whole payload enough e cut =
    step-Posts send mtu fuel sent whole payload _
      (λ ds p less. post_from-Posts send mtu fuel ds whole p (omega (arith, less, enough))) e cut
      (post_from-Round send mtu fuel sent payload)

-- For any MTU and network, the fuel is enough, and what was sent is the packet's bytes from its start, in
-- order. Where the call is done they are all of them, and every datagram but the last ends in a line feed; each is at
-- most the MTU. It gives up only where the next line, with all that the MTU has room for, has no line feed.
pub post-Posts :
    (send : Send) (mtu : ℕ) (payload : Bytes) → Posts mtu payload (post send mtu payload)
unfolding post joined
post-Posts send mtu payload =
    post_from-Posts send mtu (suc (length payload)) [] payload payload (omega arith) refl tt
