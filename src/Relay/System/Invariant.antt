-- ===== src/Relay/System/Invariant.antt =====
-- What holds in every reachable state of a retry buffer.
use influxdb_relay.Base.{ℕ, true, false, String, some, [], ◌∷◌, ◌++◌, ◌≡◌, ◌≤◌, All, arith}
use influxdb_relay.Relay.Buffer.{Bytes, Batch, place}
use influxdb_relay.Relay.Buffer.Order.{pending, OneOpen, place-OneOpen, pending-append}
use influxdb_relay.Relay.Buffer.Bounds.{IsValid, added}
use influxdb_relay.Relay.Buffer.Runs.{Write, writes_of, writes_of-snoc, pending-added}
use influxdb_relay.Relay.Buffer.Ids.{
  Ascends, Ascends-le, Holds, Carries, Ascends-append, Ascends-split, Holds-past, Holds-suffix,
  placed-Ascends, placed-Holds, placed-still_Holds,
}
use influxdb_relay.Relay.Retry.{Response, is_good}
use influxdb_relay.Relay.System.{Runner, resets, releases, Shared, delivered_at, Pc}
use influxdb_relay.Relay.System.Chain.{hand, carried, chain}
use mathlib.Core.List.{append_assoc}

-- What is known of a request.
abbrev pub Known : Shared → Pc → Type 0
Known m (Pc.unlocked w c) = Holds c.taker w.buf w.query w.auth (chain m)
Known m (Pc.waiting w c t) =
    Holds c.taker w.buf w.query w.auth (chain m) × (c.is_head ≡ false → t ≡ c.taker)
Known m (Pc.woken w c t r) =
    (b : Batch) × (delivered_at t m.delivered ≡ some (b, r))
    × (is_good (some r) ≡ true)
    × (t ≡ c.taker → Carries w.buf w.query w.auth b)
    × (c.is_head ≡ false → t ≡ c.taker)
    × Holds c.taker w.buf w.query w.auth (chain m)
Known m p = Unit

abbrev pub IsAnswered : Runner → Type 0
IsAnswered (resets b r) = is_good (some r) ≡ true
IsAnswered (releases b r) = is_good (some r) ≡ true
IsAnswered r = Unit

-- The parts that do not speak of requests.
pub record IsSound (m : Shared) : Type 0 where
  pub valid : IsValid m.list
  pub one_open : OneOpen m.list.batches
  pub ascends : Ascends 0 m.list.next_id (chain m)
  pub delivers :
      (query auth : String) → writes_of query auth m.accepted ≡ pending query auth (chain m)
  pub good : All (λ d. is_good (some d.1) ≡ true) m.delivered
  pub in_hand : IsAnswered m.runner

abbrev pub Inv : Shared → (ℕ → Pc) → Type 0
Inv m pc = IsSound m × ((i : ℕ) → Known m (pc i))

-- What a step may do to what is known: all batches keep what they hold, and what is done stays.
pub record Extends (m n : Shared) : Type 0 where
  pub holds :
      (t : ℕ) (buf : Bytes) (query auth : String)
      → Holds t buf query auth (chain m)
      → Holds t buf query auth (chain n)
  pub done :
      (t : ℕ) (p : Batch × Response)
      → delivered_at t m.delivered ≡ some p
      → delivered_at t n.delivered ≡ some p

pub Known-Extends : (m n : Shared) (p : Pc) → Extends m n → Known m p → Known n p
Known-Extends m n Pc.idle x k = tt
Known-Extends m n (Pc.posting w) x k = tt
Known-Extends m n (Pc.storing w) x k = tt
Known-Extends m n (Pc.adding w) x k = tt
Known-Extends m n (Pc.direct w r) x k = tt
Known-Extends m n (Pc.refused w) x k = tt
Known-Extends m n (Pc.unlocked w c) x k = x.holds c.taker w.buf w.query w.auth k
Known-Extends m n (Pc.waiting w c t) x k = (x.holds c.taker w.buf w.query w.auth k.0, k.1)
Known-Extends m n (Pc.woken w c t r) x k =
    (k.0, x.done t (k.0, r) k.1, k.2, k.3, k.4, x.holds c.taker w.buf w.query w.auth k.5)

module _ (m : Shared) (w : Write) where
  abbrev pub after_add : Shared
  after_add = record m {
    list = added m.list w.buf w.query w.auth;
    accepted = m.accepted ++ (w ∷ []);
  }

  abbrev pub taken_by : ℕ
  taken_by = (place m.list.max_batch m.list.next_id w.buf w.query w.auth m.list.batches).1

  pub added-Extends : Extends m after_add
  added-Extends = record {
    holds = λ t buf query auth.
        Holds-suffix t buf query auth (carried m.delivered) (hand m.runner ++ m.list.batches)
          (hand m.runner ++ after_add.list.batches)
          (Holds-suffix t buf query auth (hand m.runner) m.list.batches after_add.list.batches (
            placed-still_Holds m.list.max_batch m.list.next_id w.buf w.query w.auth t buf query auth
              m.list.batches));
    done = λ t p e. e;
  }

  pub after_add-Ascends :
      Ascends 0 m.list.next_id (chain m)
      → Ascends 0 after_add.list.next_id (chain after_add)
        × Holds taken_by w.buf w.query w.auth (chain after_add)
  after_add-Ascends h =
      let (a, below, above) =
        Ascends-split 0 m.list.next_id (carried m.delivered) (hand m.runner ++ m.list.batches) h in
      let (b, held, listed) = Ascends-split a m.list.next_id (hand m.runner) m.list.batches above in
      let (le, new) =
        placed-Holds m.list.max_batch m.list.next_id w.buf w.query w.auth b m.list.batches listed in
      let a_le : a ≤ b = Ascends-le a b (hand m.runner) held in
      (
        Ascends-append 0 a _ (carried m.delivered) _ below (
            Ascends-append a b _ (hand m.runner) _ held (
              placed-Ascends m.list.max_batch m.list.next_id w.buf w.query w.auth b m.list.batches
                listed)),
        Holds-past 0 a taken_by w.buf w.query w.auth (carried m.delivered) _ below
            (omega (arith, a_le, le))
            (Holds-past a b taken_by w.buf w.query w.auth (hand m.runner) _ held le new),
      )

  after_add-delivers :
      (query auth : String)
      → OneOpen m.list.batches
      → writes_of query auth m.accepted ≡ pending query auth (chain m)
      → writes_of query auth after_add.accepted ≡ pending query auth (chain after_add)
  after_add-delivers query auth open_one e = simp (
    writes_of-snoc query auth m.accepted w,
    e,
    pending-append,
    pending-added m.list w query auth open_one,
    append_assoc,
  )

  pub added-IsSound : IsSound m → IsValid after_add.list → IsSound after_add
  added-IsSound s valid = record {
    valid = valid;
    one_open = place-OneOpen _ _ w.buf w.query w.auth m.list.batches s.one_open;
    ascends = (after_add-Ascends s.ascends).0;
    delivers = λ query auth. after_add-delivers query auth s.one_open (s.delivers query auth);
    good = s.good;
    in_hand = s.in_hand;
  }
