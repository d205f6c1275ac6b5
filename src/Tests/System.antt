-- ===== src/Tests/System.antt =====
-- Runs of a retry buffer, and the theorems in the states that they reach.
use influxdb_relay.Base.{◌<◌, true, false, none, some, [], ◌∷◌, ◌++◌, ◌≡◌, refl, arith, length}
use influxdb_relay.Base.Decimal.{pos}
use influxdb_relay.Relay.Buffer.{
  Batch, BufferList, Cur, read_cur, pops, new_buffer_list, new_batch, place, add, pop, pop_batches,
}
use influxdb_relay.Relay.Buffer.Order.{pending}
use influxdb_relay.Relay.Buffer.Runs.{Write, writes_of}
use influxdb_relay.Relay.Buffer.Ids.{Carries, Holds}
use influxdb_relay.Relay.Retry.{Response, is_good}
use influxdb_relay.Relay.System
use influxdb_relay.Relay.System.{
  rests, sends, Shared, delivered_at, Pc, Move, Turn, Step, Steps, Reach, update, init,
}
use influxdb_relay.Relay.System.Chain.{hand, carried, chain}
use influxdb_relay.Relay.System.Laws.{Reach-woken, Reach-delivers}
use influxdb_relay.Relay.System.Recovery.{Served, Reach-can_wake}
use influxdb_relay.Relay.System.LateRead.{ReadsLate, Steps-late_read}
use influxdb_relay.Relay.System.Overtaking.{Steps-overtakes}

abbrev early : Write
early = record { buf = 65 ∷ 10 ∷ []; query = "db=a"; auth = "" }

abbrev late : Write
late = record { buf = 66 ∷ 10 ∷ []; query = "db=a"; auth = "" }

abbrev reply : Response
reply = record { content_type = ""; content_encoding = ""; status_code = 204; body = [] }

abbrev early_batch : Batch
early_batch = record {
  id = 0;
  query = "db=a";
  auth = "";
  bufs = (65 ∷ 10 ∷ []) ∷ [];
  size = 2;
  full = true;
}

-- The head's batch, and the one behind it.
abbrev at_head : Cur
at_head = record { taker = 0; is_head = true }

abbrev behind : Cur
behind = record { taker = 1; is_head = false }

-- Request 0 fails at the poster and is buffered.
buffered :
    (s : System.System) × Reach 10 2 (pos 1000000000) s
    × (s.pc 0 ≡ Pc.waiting early at_head 0)
    × (s.mem.buffering ≡ true)
unfolding init add place new_batch new_buffer_list is_good read_cur
buffered = (
  _,
  Reach.later
      (Reach.later
        (Reach.later
          (Reach.later (Reach.later Reach.start (Step.request 0 (Move.load_off early refl)))
            (Step.request 0 (Move.failed none refl)))
          (Step.request 0 Move.store))
        (Step.request 0 (Move.added refl)))
      (Step.request 0 (Move.reads refl)),
  refl,
  refl,
)

-- `run` delivers its batch after one bad reply, and request 0 goes on.
served :
    (s : System.System) × Reach 10 2 (pos 1000000000) s
    × (s.pc 0 ≡ Pc.woken early at_head 0 reply)
    × (s.mem.buffering ≡ false)
unfolding buffered init add place new_batch new_buffer_list is_good read_cur pop pop_batches
    delivered_at
served = (
  _,
  Reach.later
      (Reach.later
        (Reach.later
          (Reach.later
            (Reach.later (Reach.later buffered.1 (Step.runs (Turn.take refl refl)))
              (Step.runs (Turn.fails none refl refl)))
            (Step.runs (Turn.answers {r = reply} refl refl)))
          (Step.runs (Turn.reset refl)))
        (Step.runs (Turn.release refl)))
      (Step.request 0 (Move.wake refl)),
  refl,
  refl,
)

-- Request 1 is buffered too, in a batch of its own. When the first batch is done the flag is off, and
-- request 2 goes to the poster directly: it is answered while request 1, which came first, waits.
overtaken :
    (s : System.System) × Reach 10 2 (pos 1000000000) s
    × (s.pc 1 ≡ Pc.waiting late behind 1)
    × (s.pc 2 ≡ Pc.direct early reply)
    × (pending "db=a" "" s.mem.list.batches ≡ late.buf ∷ [])
unfolding buffered init add place new_batch new_buffer_list is_good read_cur pop pop_batches
    delivered_at pending
overtaken = (
  _,
  Reach.later
      (Reach.later
        (Reach.later
          (Reach.later
            (Reach.later
              (Reach.later
                (Reach.later (Reach.later buffered.1 (Step.request 1 (Move.load_on late refl)))
                  (Step.request 1 (Move.added refl)))
                (Step.request 1 (Move.reads refl)))
              (Step.runs (Turn.take refl refl)))
            (Step.runs (Turn.answers {r = reply} refl refl)))
          (Step.runs (Turn.reset refl)))
        (Step.request 2 (Move.load_off early refl)))
      (Step.request 2 (Move.answered {r = reply} refl)),
  refl,
  refl,
  refl,
)

Reach-woken_example :
    (b : Batch) × (delivered_at 0 served.0.mem.delivered ≡ some (b, reply))
    × (is_good (some reply) ≡ true)
    × (0 ≡ at_head.taker → Carries early.buf early.query early.auth b)
    × (at_head.is_head ≡ false → 0 ≡ at_head.taker)
    × Holds at_head.taker early.buf early.query early.auth (chain served.0.mem)
Reach-woken_example = Reach-woken served.1 0 0 early at_head reply served.2

Reach-delivers_example :
    writes_of "db=a" "" overtaken.0.mem.accepted
    ≡ pending "db=a" "" (carried overtaken.0.mem.delivered)
      ++ (pending "db=a" "" (hand overtaken.0.mem.runner)
          ++ pending "db=a" "" overtaken.0.mem.list.batches)
Reach-delivers_example = Reach-delivers overtaken.1 "db=a" ""

some_bytes : 0 < length late.buf
some_bytes = omega arith

Reach-can_wake_example : Served (pos 1000000000) overtaken.0 1 1 late behind
Reach-can_wake_example = Reach-can_wake overtaken.1 1 1 late behind overtaken.2 refl some_bytes

-- `run` posts the first batch, and a second write waits in the list.
sending :
    (s : System.System) × Reach 10 2 (pos 1000000000) s
    × (s.mem.runner ≡ sends early_batch (pos 500000000))
    × (s.pc 2 ≡ Pc.idle)
unfolding buffered init add place new_batch new_buffer_list is_good read_cur pop pop_batches
sending = (
  _,
  Reach.later
      (Reach.later (Reach.later buffered.1 (Step.request 1 (Move.load_on late refl)))
        (Step.request 1 (Move.added refl)))
      (Step.runs (Turn.take refl refl)),
  refl,
  refl,
)

good_reply : is_good (some reply) ≡ true
unfolding is_good
good_reply = refl

Steps-overtakes_example :
    (u : System.System) × Steps (pos 1000000000) sending.0 u
    × (u.pc 2 ≡ Pc.direct early reply)
    × (u.mem.list ≡ sending.0.mem.list)
Steps-overtakes_example =
    Steps-overtakes (pos 1000000000) sending.0 early_batch (pos 500000000) 2 early reply sending.2
      sending.3 good_reply

-- Request 0 has put its write into the only batch, and not yet read `*cur`.
abbrev own_batch : Batch
own_batch = record early_batch { full = false }

abbrev emptied : BufferList
emptied = record { batches = []; size = 0; max_size = 10; max_batch = 2; next_id = 1 }

unlocked :
    (s : System.System) × Reach 10 2 (pos 1000000000) s
    × (s.pc 0 ≡ Pc.unlocked early at_head)
    × (s.mem.runner ≡ rests)
    × (pop s.mem.list ≡ pops own_batch emptied)
unfolding init add place new_batch new_buffer_list is_good pop pop_batches
unlocked = (
  _,
  Reach.later
      (Reach.later
        (Reach.later (Reach.later Reach.start (Step.request 0 (Move.load_off early refl)))
          (Step.request 0 (Move.failed none refl)))
        (Step.request 0 Move.store))
      (Step.request 0 (Move.added refl)),
  refl,
  refl,
  refl,
)

Steps-late_read_example :
    (u : System.System) × Steps (pos 1000000000) unlocked.0 u
    × ReadsLate emptied.batches u 0 early at_head
Steps-late_read_example =
    Steps-late_read unlocked.1 0 early at_head own_batch emptied unlocked.2 refl unlocked.3
      unlocked.4 refl
