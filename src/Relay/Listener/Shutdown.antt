-- ===== src/Relay/Listener/Shutdown.antt =====
-- Run of a UDP relay can always come to its end: the loop, the channel and the wait group never block each
-- other for good.
use influxdb_relay.Base.{
  ℕ, ◌+◌, ◌-◌, ◌<◌, Bool, List, [], ◌∷◌, ◌++◌, ◌≡◌, refl, ap, ◌∙◌, length, arith,
}
use influxdb_relay.Relay.Buffer.{Bytes}
use influxdb_relay.Relay.Listener.{
  queue_size, Ending, Reader, reading, holding, draining, ended, Worker, idle, posting, posted,
  finished, Listener, ending, queues, fails, returns, takes, posts, counts, new_listener, UdpSteps,
  here, next, UdpSteps-trans,
}
use influxdb_relay.Relay.Listener.Preserved.{UdpStep-Inv, UdpSteps-Inv, new_listener-Inv}
use influxdb_relay.Relay.Listener.Invariant.{Inv}

-- A state in which Run has returned, and the steps to it.
abbrev pub CanReturn : Listener → Type 0
CanReturn s = (t : Listener) × UdpSteps s t × (e : Ending) × (t.reader ≡ ended e)

after : (s t : Listener) → UdpSteps s t → CanReturn t → CanReturn s
after s t steps (u, more, e, r) = (u, UdpSteps-trans steps more, e, r)

module _ (e : Ending) (closing is_open : Bool) (received : List Bytes) where
  abbrev drained : Worker → List Bytes → ℕ → List Bytes → Listener
  drained w q wg handled = record {
    reader = draining e;
    worker = w;
    queue = q;
    wg = wg;
    closing = closing;
    is_open = is_open;
    received = received;
    handled = handled;
  }

  -- With the channel closed, the worker posts what is queued, and Run returns.
  drains : (q handled : List Bytes) (wg : ℕ) → wg ≡ length q → CanReturn (drained idle q wg handled)
  drains [] handled wg h = (_, next here (returns refl h), e, refl)
  drains (p ∷ q) handled wg h =
      after _ _ (next (next (next here (takes refl refl)) (posts refl)) (counts refl))
        (drains q (handled ++ (p ∷ [])) (wg - 1) (omega (arith, h)))

  drains_from :
      (w : Worker) (q handled : List Bytes) (wg : ℕ)
      → Inv (drained w q wg handled)
      → CanReturn (drained w q wg handled)
  drains_from idle q handled wg i = drains q handled wg (omega (arith, i.count))
  drains_from (posting p) q handled wg i =
      after _ _ (next (next here (posts refl)) (counts refl))
        (drains q _ (wg - 1) (omega (arith, i.count)))
  drains_from posted q handled wg i =
      after _ _ (next here (counts refl)) (drains q handled (wg - 1) (omega (arith, i.count)))
  drains_from finished q handled wg i =
      let empty : q ≡ [] = i.working.1 in
      (_, next here (returns refl (i.count ∙ ap (λ x. 0 + (length x + 0)) empty)), e, refl)

from_reading : (s : Listener) → s.reader ≡ reading → Inv s → CanReturn s
from_reading s r inv = after s _ (next here (fails r)) (
    drains_from (ending s.closing) s.closing s.is_open s.received s.worker s.queue s.handled s.wg
      (UdpStep-Inv (fails r) inv))

-- A state that the worker gets to in which the reader still holds its packet and the channel has room.
abbrev HasRoom : Bytes → Listener → Type 0
HasRoom p s = (t : Listener) × UdpSteps s t × (t.reader ≡ holding p) × (length t.queue < queue_size)

module _ (p : Bytes) (closing is_open : Bool) (received : List Bytes) where
  abbrev held_up : Worker → List Bytes → ℕ → List Bytes → Listener
  held_up w q wg handled = record {
    reader = holding p;
    worker = w;
    queue = q;
    wg = wg;
    closing = closing;
    is_open = is_open;
    received = received;
    handled = handled;
  }

  -- A full channel is taken from.
  makes_room :
      (w : Worker) (x : Bytes) (q handled : List Bytes) (wg : ℕ)
      → Inv (held_up w (x ∷ q) wg handled)
      → HasRoom p (held_up w (x ∷ q) wg handled)
  makes_room idle x q handled wg i =
      (_, next here (takes refl refl), refl, omega (arith, i.bounded))
  makes_room (posting y) x q handled wg i = (
    _,
    next (next (next here (posts refl)) (counts refl)) (takes refl refl),
    refl,
    omega (arith, i.bounded),
  )
  makes_room posted x q handled wg i =
      (_, next (next here (counts refl)) (takes refl refl), refl, omega (arith, i.bounded))
  makes_room finished x q handled wg i = absurd (i.working.0)

  gets_room :
      (w : Worker) (q handled : List Bytes) (wg : ℕ)
      → Inv (held_up w q wg handled)
      → HasRoom p (held_up w q wg handled)
  gets_room w [] handled wg i = (_, here, refl, omega arith)
  gets_room w (x ∷ q) handled wg i = makes_room w x q handled wg i

queues_on : (p : Bytes) (s : Listener) → Inv s → HasRoom p s → CanReturn s
queues_on p s inv (t, steps, r, room) =
    let queued = next steps (queues r room) in
    after s _ queued (from_reading _ refl (UdpSteps-Inv queued inv))

returns_from :
    (r : Reader) (w : Worker) (q : List Bytes) (wg : ℕ) (closing is_open : Bool)
    (received handled : List Bytes)
    → let s : Listener = record {
      reader = r;
      worker = w;
      queue = q;
      wg = wg;
      closing = closing;
      is_open = is_open;
      received = received;
      handled = handled;
    } in
      Inv s → CanReturn s
returns_from reading w q wg c o rs hs i = from_reading _ refl i
returns_from (holding p) w q wg c o rs hs i = queues_on p _ i (gets_room p c o rs w q hs wg i)
returns_from (draining e) w q wg c o rs hs i = drains_from e c o rs w q hs wg i
returns_from (ended e) w q wg c o rs hs i = (_, here, e, refl)

-- From every state that a UDP relay can get to, also with a full channel or a packet in hand, steps
-- lead to the return of Run.
pub UdpSteps-can_return :
    (s : Listener)
    → UdpSteps new_listener s
    → (t : Listener) × UdpSteps s t × (e : Ending) × (t.reader ≡ ended e)
UdpSteps-can_return s steps =
    returns_from s.reader s.worker s.queue s.wg s.closing s.is_open s.received s.handled
      (UdpSteps-Inv steps new_listener-Inv)
