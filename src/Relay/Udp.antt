-- ===== src/Relay/Udp.antt =====
-- relay/udp.go: udpBackend.post, which sends the lines of a packet in datagrams of at most the MTU.
pub mod Laws
use influxdb_relay.Base.{
  ℕ, zero, suc, Bool, Option, none, some, List, [], ◌∷◌, ◌++◌, if◌then◌else◌, ltb, ◌==◌, length,
  take, drop,
}
use influxdb_relay.Relay.Buffer.{Bytes}

-- Whether a datagram can be sent after the others of this call: WriteToUDP.
abbrev pub Send : Type 0
Send = List Bytes → Bytes → Bool

pub data Outcome : Type 0 where
  done : Outcome
  too_large : Outcome
  failed : Outcome

-- The index in a list from the one in its tail and whether its head is the byte.
unfoldable pub before_index : Bool → Option ℕ → Option ℕ
before_index here (some i) = some (suc i)
before_index here none = if here then some 0 else none

-- bytes.LastIndexByte
unfoldable pub last_index : ℕ → Bytes → Option ℕ
last_index c [] = none
last_index c (x ∷ xs) = before_index (x == c) (last_index c xs)

unfoldable pub send_last : Send → List Bytes → Bytes → List Bytes × Outcome
send_last send sent payload =
    if send sent payload then (sent ++ (payload ∷ []), done) else (sent, failed)

-- The loop, from the datagrams sent so far; none is a want of fuel. The line feed is 10.
unfoldable pub post_from : Send → ℕ → ℕ → List Bytes → Bytes → Option (List Bytes × Outcome)
post_from send mtu zero sent payload = none
post_from send mtu (suc fuel) sent payload =
    if ltb mtu (length payload)
    then elim (last_index 10 (take mtu payload)) [
      | none ↦ some (sent, too_large)
      | some idx ↦
          let rest =
            post_from send mtu fuel (sent ++ (take (suc idx) payload ∷ []))
              (drop (suc idx) payload) in
          if send sent (take (suc idx) payload) then rest else some (sent, failed)
    ]
    else some (send_last send sent payload)

-- Each round takes a byte at least.
unfoldable pub post : Send → ℕ → Bytes → Option (List Bytes × Outcome)
post send mtu payload = post_from send mtu (suc (length payload)) [] payload
