-- ===== src/Relay/System/Turns.antt =====
-- A step of `run` keeps the invariant.
use influxdb_relay.Base.{
  ℕ, Bool, true, false, some, List, [], ◌∷◌, ◌++◌, ◌≡◌, refl, sym, ap, subst, ◌∙◌, All,
}
use influxdb_relay.Relay.Buffer.{Batch, BufferList, pop, pops}
use influxdb_relay.Relay.Buffer.Order.{pending, OneOpen}
use influxdb_relay.Relay.Buffer.Bounds.{IsValid, PopsTo, pop-PopsTo}
use influxdb_relay.Relay.Buffer.Runs.{writes_of}
use influxdb_relay.Relay.Buffer.Ids.{Ascends, Holds, pop-next_id}
use influxdb_relay.Relay.Retry.{Duration, Response, is_good}
use influxdb_relay.Relay.System.{Runner, rests, sends, releases, Shared, delivered_at, Turn}
use influxdb_relay.Relay.System.Chain.{hand, carried, chain, carried-snoc, delivered_at-snoc}
use influxdb_relay.Relay.System.Invariant.{IsAnswered, IsSound, Extends}
use mathlib.Core.List.{append_assoc}

-- A step of `run` leaves the chain as it is.
pub record Turned (m n : Shared) : Type 0 where
  pub sound : IsSound n
  pub extends : Extends m n

pub record IsMoved (m n : Shared) : Type 0 where
  same : chain n ≡ chain m
  ids : n.list.next_id ≡ m.list.next_id
  accepts : n.accepted ≡ m.accepted
  valid : IsValid n.list
  one_open : OneOpen n.list.batches
  good : All (λ d. is_good (some d.1) ≡ true) n.delivered
  in_hand : IsAnswered n.runner
  done :
      (t : ℕ) (p : Batch × Response)
      → delivered_at t m.delivered ≡ some p
      → delivered_at t n.delivered ≡ some p

pub IsMoved-Turned : (m n : Shared) → IsSound m → IsMoved m n → Turned m n
IsMoved-Turned m n s v = record {
  sound = record {
    valid = v.valid;
    one_open = v.one_open;
    ascends =
        subst (λ k. Ascends 0 k (chain n)) (sym v.ids)
          (subst (λ c. Ascends 0 m.list.next_id c) (sym v.same) s.ascends);
    delivers = λ query auth.
        ap (writes_of query auth) v.accepts
        ∙ s.delivers query auth
        ∙ ap (pending query auth) (sym v.same);
    good = v.good;
    in_hand = v.in_hand;
  };
  extends = record {
    holds = λ t buf query auth h. subst (λ c. Holds t buf query auth c) (sym v.same) h;
    done = v.done;
  };
}

-- Only the runner and the flag change, and the runner keeps its batch.
kept_in_hand :
    (m : Shared) (r : Runner) (flag : Bool)
    → IsSound m
    → hand r ≡ hand m.runner
    → IsAnswered r
    → IsMoved m (record m { buffering = flag; runner = r })
kept_in_hand m r flag s e g = record {
  same = ap (λ h. carried m.delivered ++ (h ++ m.list.batches)) e;
  ids = refl;
  accepts = refl;
  valid = s.valid;
  one_open = s.one_open;
  good = s.good;
  in_hand = g;
  done = λ t p q. q;
}

took :
    (m : Shared) (b : Batch) (l : BufferList) (interval : Duration)
    → IsSound m
    → m.runner ≡ rests
    → pop m.list ≡ pops b l
    → IsMoved m (record m { list = l; runner = sends b interval })
took m b l interval s e q =
    let p : PopsTo m.list (pops b l) = subst (PopsTo m.list) q (pop-PopsTo m.list s.valid) in
    record {
      same = sym (
          ap (λ r. carried m.delivered ++ (hand r ++ m.list.batches)) e
          ∙ ap (λ bs. carried m.delivered ++ bs) p.0);
      ids = pop-next_id m.list l b q;
      accepts = refl;
      valid = p.4;
      one_open = (subst OneOpen p.0 s.one_open).1;
      good = s.good;
      in_hand = tt;
      done = λ t p q. q;
    }

good-snoc :
    (ds : List (Batch × Response)) (d : Batch × Response)
    → All (λ d. is_good (some d.1) ≡ true) ds
    → is_good (some d.1) ≡ true
    → All (λ d. is_good (some d.1) ≡ true) (ds ++ (d ∷ []))
good-snoc [] d h g = (g, tt)
good-snoc (c ∷ ds) d h g = (h.0, good-snoc ds d h.1 g)

released :
    (m : Shared) (b : Batch) (r : Response)
    → IsSound m
    → m.runner ≡ releases b r
    → IsMoved m (record m { runner = rests; delivered = m.delivered ++ ((b, r) ∷ []) })
released m b r s e = record {
  same =
      ap (λ c. c ++ m.list.batches) (carried-snoc m.delivered b r)
      ∙ append_assoc (carried m.delivered) (b ∷ []) m.list.batches
      ∙ ap (λ x. carried m.delivered ++ (hand x ++ m.list.batches)) (sym e);
  ids = refl;
  accepts = refl;
  valid = s.valid;
  one_open = s.one_open;
  good = good-snoc m.delivered (b, r) s.good (subst (λ x. IsAnswered x) e s.in_hand);
  in_hand = tt;
  done = λ t p q. delivered_at-snoc t m.delivered (b, r) p q;
}

pub Turn-IsMoved :
    {max_interval : Duration} {m n : Shared} → Turn max_interval m n → IsSound m → IsMoved m n
Turn-IsMoved {m} (Turn.take {b} {l} e q) s = took m b l _ s e q
Turn-IsMoved {m} (Turn.fails {b} reply e g) s = kept_in_hand m _ m.buffering s (sym (ap hand e)) tt
Turn-IsMoved {m} (Turn.answers e g) s = kept_in_hand m _ m.buffering s (sym (ap hand e)) g
Turn-IsMoved {m} (Turn.reset e) s =
    kept_in_hand m _ false s (sym (ap hand e)) (subst (λ x. IsAnswered x) e s.in_hand)
Turn-IsMoved {m} (Turn.release {b} {r} e) s = released m b r s e
