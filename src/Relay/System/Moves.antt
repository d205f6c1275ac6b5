-- ===== src/Relay/System/Moves.antt =====
-- A move of one request keeps the invariant.
use influxdb_relay.Base.{arith, false, List, ℕ, Bool, true, some, [], ◌∷◌, ◌++◌, ◌≡◌, subst}
use influxdb_relay.Relay.Buffer.{Batch, BufferList, Cur, read_cur, add}
use influxdb_relay.Relay.Buffer.Bounds.{IsValid, added, AddsTo, add-AddsTo}
use influxdb_relay.Relay.Buffer.Runs.{Write}
use influxdb_relay.Relay.Buffer.Ids.{add-added, cur_of}
use influxdb_relay.Relay.Retry.{Response}
use influxdb_relay.Relay.System.{Shared, delivered_at, Pc, Move}
use influxdb_relay.Relay.System.Chain.{hand, delivered_at-Holds, delivered_at-good}
use influxdb_relay.Relay.System.Invariant.{
  Known, IsSound, Extends, after_add, added-Extends, after_add-Ascends, added-IsSound,
}

-- A move leaves a state sound, keeps what is known of the others, and what it makes known of its own
-- request holds.
pub record Good (m n : Shared) (p : Pc) : Type 0 where
  pub sound : IsSound n
  pub extends : Extends m n
  pub known : Known n p

Extends-refl : (m : Shared) → Extends m m
Extends-refl m = record { holds = λ t buf query auth h. h; done = λ t p e. e }

-- Nothing but the flag changes.
set_flag : Shared → Shared
set_flag m = record m { buffering = true }

IsSound-flag : (m : Shared) (flag : Bool) → IsSound m → IsSound (record m { buffering = flag })
IsSound-flag m flag s = record {
  valid = s.valid;
  one_open = s.one_open;
  ascends = s.ascends;
  delivers = s.delivers;
  good = s.good;
  in_hand = s.in_hand;
}

added_exactly-Good :
    (m : Shared) (w : Write)
    → IsSound m
    → IsValid (added m.list w.buf w.query w.auth)
    → Good m (after_add m w) (Pc.unlocked w (cur_of m.list w.buf w.query w.auth))
added_exactly-Good m w s valid = record {
  sound = added-IsSound m w s valid;
  extends = added-Extends m w;
  known = (after_add-Ascends m w s.ascends).1;
}

added-Good :
    (m : Shared) (w : Write) (c : Cur) (l : BufferList)
    → IsSound m
    → add m.list w.buf w.query w.auth ≡ some (l, c)
    → Good m (record m { list = l; accepted = m.accepted ++ (w ∷ []) }) (Pc.unlocked w c)
added-Good m w c l s e =
    let (same, named) = add-added m.list l c w.buf w.query w.auth e in
    let adds : AddsTo m.list w.buf (some (l, c)) =
      subst (AddsTo m.list w.buf) e (add-AddsTo m.list w.buf w.query w.auth s.valid) in
    rw (same, named) (added_exactly-Good m w s (subst (λ x. IsValid x) same adds.3))

-- Read through the `next` of a batch, it is the batch that took the write.
read_cur-next :
    (c : Cur) (bs : List Batch) (t : ℕ) → read_cur c bs ≡ some t → c.is_head ≡ false → t ≡ c.taker
unfolding read_cur
read_cur-next c bs t e h = ground arith

wake-Good :
    (m : Shared) (w : Write) (c : Cur) (t : ℕ) (b : Batch) (r : Response)
    → IsSound m
    → Known m (Pc.waiting w c t)
    → delivered_at t m.delivered ≡ some (b, r)
    → Good m m (Pc.woken w c t r)
wake-Good m w c t b r s k e = record {
  sound = s;
  extends = Extends-refl m;
  known = (
    b,
    e,
    delivered_at-good t m.delivered b r s.good e,
    (λ own.
        delivered_at-Holds c.taker w.buf w.query w.auth m.delivered
          (hand m.runner ++ m.list.batches) b r
          (subst (λ x. delivered_at x m.delivered ≡ some (b, r)) own e) k.0),
    k.1,
    k.0,
  );
}

pub Move-Good : {m n : Shared} {p p' : Pc} → Move m p n p' → IsSound m → Known m p → Good m n p'
Move-Good {m} (Move.load_off w e) s k = record { sound = s; extends = Extends-refl m; known = tt }
Move-Good {m} (Move.load_on w e) s k = record { sound = s; extends = Extends-refl m; known = tt }
Move-Good {m} (Move.answered g) s k = record { sound = s; extends = Extends-refl m; known = tt }
Move-Good {m} (Move.failed reply g) s k = record { sound = s; extends = Extends-refl m; known = tt }
Move-Good {m} Move.store s k = record {
  sound = IsSound-flag m true s;
  extends = record { holds = λ t buf query auth h. h; done = λ t p e. e };
  known = tt;
}
Move-Good {m} (Move.added {w} {c} {l} e) s k = added-Good m w c l s e
Move-Good {m} (Move.reads {w} {c} {t} e) s k = record {
  sound = s;
  extends = Extends-refl m;
  known = (k, read_cur-next c m.list.batches t e);
}
Move-Good {m} (Move.full e) s k = record { sound = s; extends = Extends-refl m; known = tt }
Move-Good {m} (Move.wake {w} {c} {t} {b} {r} e) s k = wake-Good m w c t b r s k e
