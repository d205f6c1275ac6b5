-- ===== src/Relay/Listener/Preserved.antt =====
-- Each step of a UDP relay keeps the invariant.
use influxdb_relay.Base.{
  ℕ, ◌-◌, Bool, true, false, List, [], ◌∷◌, ◌++◌, ◌≡◌, refl, sym, subst, ◌∙◌, length-append, arith,
}
use influxdb_relay.Relay.Buffer.{Bytes}
use influxdb_relay.Relay.Listener.{
  Ending, no_error, Reader, reading, holding, draining, ended, Worker, idle, posting, posted,
  finished, Listener, ending, UdpStep, reads, queues, fails, returns, takes, posts, counts,
  finishes, marks, closes, new_listener, UdpSteps, here, next,
}
use mathlib.Core.List.{append_assoc, append-nil}
use influxdb_relay.Relay.Listener.Invariant.{
  Inv, held, in_work, IsEnding, IsClosed, IsWorking, IsDone,
}

pub at_reader : (s : Listener) (r : Reader) → s.reader ≡ r → Inv s → Inv (record s { reader = r })
at_reader s r e i = subst (λ x. Inv (record s { reader = x })) e i

pub at_worker : (s : Listener) (w : Worker) → s.worker ≡ w → Inv s → Inv (record s { worker = w })
at_worker s w e i = subst (λ x. Inv (record s { worker = x })) e i

pub at_queue : (s : Listener) (q : List Bytes) → s.queue ≡ q → Inv s → Inv (record s { queue = q })
at_queue s q e i = subst (λ x. Inv (record s { queue = x })) e i

line-reads :
    (h w q r : List Bytes) (p : Bytes)
    → h ++ (w ++ (q ++ [])) ≡ r
    → h ++ (w ++ (q ++ (p ∷ []))) ≡ r ++ (p ∷ [])
line-reads h w q r p e =
    rw (sym e, append-nil q, append_assoc h (w ++ q) (p ∷ []), append_assoc w q (p ∷ [])) refl

-- A worker that is not finished goes on whatever the reader does.
IsWorking-unclosed :
    (w : Worker) (r r' : Reader) (q q' : List Bytes)
    → (IsClosed r → ⊥)
    → IsWorking w r q
    → IsWorking w r' q'
IsWorking-unclosed idle r r' q q' unclosed h = tt
IsWorking-unclosed (posting p) r r' q q' unclosed h = tt
IsWorking-unclosed posted r r' q q' unclosed h = tt
IsWorking-unclosed finished r r' q q' unclosed h = absurd (unclosed h.0)

IsWorking-ended :
    (w : Worker) (e : Ending) (q : List Bytes)
    → IsWorking w (draining e) q
    → IsWorking w (ended e) q
IsWorking-ended idle e q h = tt
IsWorking-ended (posting p) e q h = tt
IsWorking-ended posted e q h = tt
IsWorking-ended finished e q h = (tt, h.1)

count_down : (r : Reader) (wg : ℕ) → IsDone r wg → IsDone r (wg - 1)
count_down reading wg h = tt
count_down (holding p) wg h = tt
count_down (draining e) wg h = tt
count_down (ended e) wg h = omega arith

marked : (closing : Bool) (r : Reader) → IsEnding closing r → IsEnding true r
marked closing reading h = tt
marked closing (holding p) h = tt
marked closing (draining e) h = λ n. refl
marked closing (ended e) h = λ n. refl

ending-no_error : (closing : Bool) → ending closing ≡ no_error → closing ≡ true
ending-no_error true e = refl
ending-no_error false e = cc

pub UdpStep-Inv : {s t : Listener} → UdpStep s t → Inv s → Inv t
UdpStep-Inv {s} (reads p e o) inv =
    let i = at_reader s reading e inv in
    record {
      line = line-reads s.handled (in_work s.worker) s.queue s.received p i.line;
      count = omega (arith, i.count);
      bounded = inv.bounded;
      ending = tt;
      working = IsWorking-unclosed s.worker reading (holding p) s.queue s.queue (λ x. x) i.working;
      done = tt;
    }
UdpStep-Inv {s} (queues {p} e room) inv =
    let i = at_reader s (holding p) e inv in
    record {
      line = rw (append-nil (s.queue ++ (p ∷ []))) i.line;
      count = omega (arith, i.count, length-append s.queue (p ∷ []));
      bounded = omega (arith, room, length-append s.queue (p ∷ []));
      ending = tt;
      working = IsWorking-unclosed s.worker (holding p) reading s.queue _ (λ x. x) i.working;
      done = tt;
    }
UdpStep-Inv {s} (fails e) inv =
    let i = at_reader s reading e inv in
    record {
      line = i.line;
      count = i.count;
      bounded = inv.bounded;
      ending = ending-no_error s.closing;
      working = IsWorking-unclosed s.worker reading _ s.queue s.queue (λ x. x) i.working;
      done = tt;
    }
UdpStep-Inv {s} (returns {e} r z) inv =
    let i = at_reader s (draining e) r inv in
    record {
      line = i.line;
      count = i.count;
      bounded = inv.bounded;
      ending = i.ending;
      working = IsWorking-ended s.worker e s.queue i.working;
      done = z;
    }
UdpStep-Inv {s} (takes {p} {ps} e q) inv =
    let i = at_queue (record s { worker = idle }) (p ∷ ps) q (at_worker s idle e inv) in
    record {
      line = i.line;
      count = omega (arith, i.count);
      bounded = omega (arith, i.bounded);
      ending = inv.ending;
      working = tt;
      done = inv.done;
    }
UdpStep-Inv {s} (posts {p} e) inv =
    let i = at_worker s (posting p) e inv in
    record {
      line = append_assoc s.handled (p ∷ []) (s.queue ++ held s.reader) ∙ i.line;
      count = i.count;
      bounded = inv.bounded;
      ending = inv.ending;
      working = tt;
      done = inv.done;
    }
UdpStep-Inv {s} (counts e) inv =
    let i = at_worker s posted e inv in
    record {
      line = i.line;
      count = omega (arith, i.count);
      bounded = inv.bounded;
      ending = inv.ending;
      working = tt;
      done = count_down s.reader s.wg inv.done;
    }
UdpStep-Inv {s} (finishes {e} w q r) inv =
    let i = at_worker s idle w inv in
    record {
      line = i.line;
      count = i.count;
      bounded = inv.bounded;
      ending = inv.ending;
      working = (subst IsClosed (sym r) tt, q);
      done = inv.done;
    }
UdpStep-Inv {s} marks inv = record {
  line = inv.line;
  count = inv.count;
  bounded = inv.bounded;
  ending = marked s.closing s.reader inv.ending;
  working = inv.working;
  done = inv.done;
}
UdpStep-Inv {s} (closes c) inv = record {
  line = inv.line;
  count = inv.count;
  bounded = inv.bounded;
  ending = inv.ending;
  working = inv.working;
  done = inv.done;
}

pub UdpSteps-Inv : {s t : Listener} → UdpSteps s t → Inv s → Inv t
UdpSteps-Inv here inv = inv
UdpSteps-Inv (next steps st) inv = UdpStep-Inv st (UdpSteps-Inv steps inv)

pub new_listener-Inv : Inv new_listener
new_listener-Inv = record {
  line = refl;
  count = refl;
  bounded = omega arith;
  ending = tt;
  working = tt;
  done = tt;
}
