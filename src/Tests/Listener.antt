-- ===== src/Tests/Listener.antt =====
-- A UDP relay that gets two packets and is stopped.
use influxdb_relay.Base.{◌+◌, ◌≤◌, true, false, [], ◌∷◌, ◌++◌, ◌≡◌, refl, length, arith}
use influxdb_relay.Relay.Listener.{
  queue_size, Ending, no_error, Listener, holding, ended, idle, posting, reads, queues, fails,
  returns, takes, posts, counts, marks, closes, new_listener, UdpSteps, here, next, UdpSteps-trans,
}
use influxdb_relay.Relay.Listener.Invariant.{held, in_work, uncounted}
use influxdb_relay.Relay.Listener.Laws.{UdpSteps-in_order, UdpSteps-returned}
use influxdb_relay.Relay.Listener.Shutdown.{UdpSteps-can_return}

-- The second packet is read while the first is in `post`.
abbrev busy : Listener
busy = record {
  reader = holding (66 ∷ []);
  worker = posting (65 ∷ []);
  queue = [];
  wg = 2;
  closing = false;
  is_open = true;
  received = (65 ∷ []) ∷ (66 ∷ []) ∷ [];
  handled = [];
}

under_way : UdpSteps new_listener busy
under_way =
    next
      (next (next (next here (reads (65 ∷ []) refl refl)) (queues refl (omega arith)))
        (takes refl refl))
      (reads (66 ∷ []) refl refl)

-- Stop is called, the first packet is posted and the second one queued; then the socket is closed and the read
-- fails; the rest is posted, and Run returns.
abbrev over : Listener
over = record busy {
  reader = ended no_error;
  worker = idle;
  wg = 0;
  closing = true;
  is_open = false;
  handled = (65 ∷ []) ∷ (66 ∷ []) ∷ [];
}

stopping : UdpSteps busy over
stopping =
    next
      (next
        (next
          (next
            (next
              (next
                (next (next (next (next here marks) (posts refl)) (queues refl (omega arith)))
                  (closes refl))
                (fails refl))
              (counts refl))
            (takes refl refl))
          (posts refl))
        (counts refl))
      (returns refl refl)

UdpSteps-in_order_example :
    (busy.handled ++ (in_work busy.worker ++ (busy.queue ++ held busy.reader)) ≡ busy.received)
    × (busy.wg ≡ uncounted busy.worker + (length busy.queue + length (held busy.reader)))
    × (length busy.queue ≤ queue_size)
UdpSteps-in_order_example = UdpSteps-in_order busy under_way

UdpSteps-returned_example :
    (over.handled ≡ over.received) × (over.queue ≡ []) × (no_error ≡ no_error → over.closing ≡ true)
UdpSteps-returned_example = UdpSteps-returned over no_error (UdpSteps-trans under_way stopping) refl

UdpSteps-can_return_example : (t : Listener) × UdpSteps busy t × (e : Ending) × (t.reader ≡ ended e)
UdpSteps-can_return_example = UdpSteps-can_return busy under_way
