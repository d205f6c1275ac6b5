-- ===== src/Relay/Packets.antt =====
-- relay/udp.go: UDP.post, which gives the lines of a packet to every backend.
pub mod Laws
use influxdb_relay.Base.{ℕ, String, Option, none, some, List, [], ◌∷◌}
use influxdb_relay.Relay.Buffer.{Bytes}
use influxdb_relay.Relay.Serve.{Libraries, print_points}
use influxdb_relay.Relay.Udp
use influxdb_relay.Relay.Udp.{Send, Outcome}

-- udpBackend; `send` is the network to its address.
pub record UdpBackend : Type 0 where
  pub name : String
  pub send : Send
  pub mtu : ℕ

-- What each backend was sent, and how its call ended. An error of one is logged, and the next is served.
unfoldable pub post_each : List UdpBackend → Bytes → List (Option (List Bytes × Outcome))
post_each [] out = []
post_each (b ∷ bs) out = Udp.post b.send b.mtu out ∷ post_each bs out

module _ {Point : Type 0} (libs : Libraries Point) where
  unfoldable pub post_points :
      List UdpBackend → String → Option (List Point) → List (Option (List Bytes × Outcome))
  post_points backends precision none = []
  post_points backends precision (some points) =
      post_each backends (print_points libs precision points)

  unfoldable pub post_packet :
      List UdpBackend → String → Bytes → List (Option (List Bytes × Outcome))
  post_packet backends precision payload =
      post_points backends precision (libs.parse payload precision)
