-- ===== src/Relay/Listener/Laws.antt =====
-- What Run of a UDP relay has done when it returns.
use influxdb_relay.Base.{
  ◌+◌, ◌≤◌, true, List, [], ◌∷◌, ◌++◌, ◌≡◌, sym, ap, ◌∙◌, refl, length, arith,
}
use influxdb_relay.Relay.Buffer.{Bytes}
use influxdb_relay.Relay.Listener.{
  queue_size, Ending, no_error, ended, Worker, idle, posting, posted, finished, Listener,
  new_listener, UdpSteps,
}
use influxdb_relay.Relay.Listener.Preserved.{UdpSteps-Inv, new_listener-Inv, at_reader}
use influxdb_relay.Relay.Listener.Invariant.{held, in_work, uncounted}
use mathlib.Core.List.{append-nil}

no_packets : (ps : List Bytes) → length ps ≡ 0 → ps ≡ []
no_packets [] h = refl
no_packets (p ∷ ps) h = ground arith

no_work : (w : Worker) → uncounted w ≡ 0 → in_work w ≡ []
no_work idle h = refl
no_work (posting p) h = ground arith
no_work posted h = refl
no_work finished h = refl

-- In every state of a UDP relay, however reads, posts and Stop interleave: no packet is lost, doubled or moved past
-- another between the read and the call of `post`, the wait group counts those under way, and the
-- channel is within its capacity.
pub UdpSteps-in_order :
    (s : Listener)
    → UdpSteps new_listener s
    → (s.handled ++ (in_work s.worker ++ (s.queue ++ held s.reader)) ≡ s.received)
      × (s.wg ≡ uncounted s.worker + (length s.queue + length (held s.reader)))
      × (length s.queue ≤ queue_size)
UdpSteps-in_order s steps =
    let inv = UdpSteps-Inv steps new_listener-Inv in (inv.line, inv.count, inv.bounded)

-- When Run has returned, `post` was called and has ended for every packet that was read, in the order
-- of the reads, and it returned no error only if Stop was called.
pub UdpSteps-returned :
    (s : Listener) (e : Ending)
    → UdpSteps new_listener s
    → s.reader ≡ ended e
    → (s.handled ≡ s.received) × (s.queue ≡ []) × (e ≡ no_error → s.closing ≡ true)
UdpSteps-returned s e steps r =
    let i = at_reader s (ended e) r (UdpSteps-Inv steps new_listener-Inv) in
    let queued : s.queue ≡ [] = no_packets s.queue (omega (arith, i.count, i.done)) in
    let worked : in_work s.worker ≡ [] = no_work s.worker (omega (arith, i.count, i.done)) in
    (
      sym (append-nil s.handled)
          ∙ sym (ap (λ w. s.handled ++ (w ++ [])) worked)
          ∙ sym (ap (λ q. s.handled ++ (in_work s.worker ++ (q ++ []))) queued)
          ∙ i.line,
      queued,
      i.ending,
    )
