-- ===== src/Relay/Listener/Invariant.antt =====
-- What holds in every state of a UDP relay.
use influxdb_relay.Base.{ℕ, ◌+◌, ◌≤◌, Bool, true, List, [], ◌∷◌, ◌++◌, ◌≡◌, length}
use influxdb_relay.Relay.Buffer.{Bytes}
use influxdb_relay.Relay.Listener.{
  queue_size, no_error, Reader, reading, holding, draining, ended, Worker, idle, posting, posted,
  finished, Listener,
}

-- The packet that the reader has not queued yet.
abbrev pub held : Reader → List Bytes
held reading = []
held (holding p) = p ∷ []
held (draining e) = []
held (ended e) = []

-- The packet that the worker has taken and not posted yet.
abbrev pub in_work : Worker → List Bytes
in_work idle = []
in_work (posting p) = p ∷ []
in_work posted = []
in_work finished = []

-- A packet that the worker has not counted yet.
abbrev pub uncounted : Worker → ℕ
uncounted idle = 0
uncounted (posting p) = 1
uncounted posted = 1
uncounted finished = 0

-- The loop of Run is over without an error only after Stop was called.
abbrev pub IsEnding : Bool → Reader → Type 0
IsEnding closing reading = Unit
IsEnding closing (holding p) = Unit
IsEnding closing (draining e) = e ≡ no_error → closing ≡ true
IsEnding closing (ended e) = e ≡ no_error → closing ≡ true

abbrev pub IsClosed : Reader → Type 0
IsClosed reading = ⊥
IsClosed (holding p) = ⊥
IsClosed (draining e) = Unit
IsClosed (ended e) = Unit

-- The worker is finished only when the channel is closed and empty.
abbrev pub IsWorking : Worker → Reader → List Bytes → Type 0
IsWorking idle r q = Unit
IsWorking (posting p) r q = Unit
IsWorking posted r q = Unit
IsWorking finished r q = IsClosed r × (q ≡ [])

abbrev pub IsDone : Reader → ℕ → Type 0
IsDone reading wg = Unit
IsDone (holding p) wg = Unit
IsDone (draining e) wg = Unit
IsDone (ended e) wg = wg ≡ 0

pub record Inv (s : Listener) : Type 0 where
  pub line : s.handled ++ (in_work s.worker ++ (s.queue ++ held s.reader)) ≡ s.received
  pub count : s.wg ≡ uncounted s.worker + (length s.queue + length (held s.reader))
  pub bounded : length s.queue ≤ queue_size
  pub ending : IsEnding s.closing s.reader
  pub working : IsWorking s.worker s.reader s.queue
  pub done : IsDone s.reader s.wg
