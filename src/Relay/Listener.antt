-- ===== src/Relay/Listener.antt =====
-- relay/udp.go: Run and Stop of UDP. One goroutine reads packets and queues them, another calls
-- `post` for each, and Stop may be called at any time; their steps follow one another in any order. The socket may
-- fail at any read.
pub mod Invariant
pub mod Preserved
pub mod Laws
pub mod Shutdown
use influxdb_relay.Base.{
  ℕ, ◌+◌, ◌-◌, ◌<◌, Bool, true, false, List, [], ◌∷◌, ◌++◌, ◌≡◌, if◌then◌else◌, length,
}
use influxdb_relay.Relay.Buffer.{Bytes}

-- The capacity of the channel of packets.
abbrev pub queue_size : ℕ
queue_size = 1024

-- What Run returns.
pub data Ending : Type 0 where
  no_error : Ending
  read_error : Ending

-- Where the loop of Run stands: before a read; before the send of a packet on the channel; at
-- `wg.Wait`, with the channel closed; and after the return.
pub data Reader : Type 0 where
  reading : Reader
  holding : Bytes → Reader
  draining : Ending → Reader
  ended : Ending → Reader

-- The goroutine that posts: before a receive; in `post`; before `wg.Done`; after the end of the channel.
pub data Worker : Type 0 where
  idle : Worker
  posting : Bytes → Worker
  posted : Worker
  finished : Worker

-- `is_open` is the socket's state. `received` and `handled`, which the code does not keep, are the packets that were
-- read and those that `post` was called with, oldest first.
pub record Listener : Type 0 where
  pub reader : Reader
  pub worker : Worker
  pub queue : List Bytes
  pub wg : ℕ
  pub closing : Bool
  pub is_open : Bool
  pub received : List Bytes
  pub handled : List Bytes

abbrev pub ending : Bool → Ending
ending closing = if closing then no_error else read_error

pub data UdpStep (s : Listener) : Listener → Type 0 where
  reads :
      (p : Bytes)
      → s.reader ≡ reading
      → s.is_open ≡ true
      → UdpStep s
          (record s { reader = holding p; wg = s.wg + 1; received = s.received ++ (p ∷ []) })
  queues :
      {p : Bytes}
      → s.reader ≡ holding p
      → length s.queue < queue_size
      → UdpStep s (record s { reader = reading; queue = s.queue ++ (p ∷ []) })
  fails : s.reader ≡ reading → UdpStep s (record s { reader = draining (ending s.closing) })
  returns :
      {e : Ending} → s.reader ≡ draining e → s.wg ≡ 0 → UdpStep s (record s { reader = ended e })
  takes :
      {p : Bytes} {ps : List Bytes}
      → s.worker ≡ idle
      → s.queue ≡ p ∷ ps
      → UdpStep s (record s { worker = posting p; queue = ps })
  posts :
      {p : Bytes}
      → s.worker ≡ posting p
      → UdpStep s (record s { worker = posted; handled = s.handled ++ (p ∷ []) })
  counts : s.worker ≡ posted → UdpStep s (record s { worker = idle; wg = s.wg - 1 })
  finishes :
      {e : Ending}
      → s.worker ≡ idle
      → s.queue ≡ []
      → s.reader ≡ draining e
      → UdpStep s (record s { worker = finished })
  -- Stop
  marks : UdpStep s (record s { closing = true })
  closes : s.closing ≡ true → UdpStep s (record s { is_open = false })

-- A relay that NewUDP has made, when Run is called.
abbrev pub new_listener : Listener
new_listener = record {
  reader = reading;
  worker = idle;
  queue = [];
  wg = 0;
  closing = false;
  is_open = true;
  received = [];
  handled = [];
}

-- From one state to another by any number of steps.
pub data UdpSteps (s : Listener) : Listener → Type 0 where
  here : UdpSteps s s
  next : {t u : Listener} → UdpSteps s t → UdpStep t u → UdpSteps s u

pub UdpSteps-trans : {s t u : Listener} → UdpSteps s t → UdpSteps t u → UdpSteps s u
UdpSteps-trans a here = a
UdpSteps-trans a (next b st) = next (UdpSteps-trans a b) st
