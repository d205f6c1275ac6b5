-- ===== src/Relay/System.antt =====
-- relay/retry.go: the goroutines of one retry buffer. Requests call `post`, one goroutine runs `run`, and
-- their steps follow one another in any order. An operation on the list is one step, since it holds
-- the lock; so is a load or store of the flag. `add` reads `*cur` after the unlock, in a step of its own. What the poster answers is left open.
pub mod Chain
pub mod Invariant
pub mod Moves
pub mod Turns
pub mod Preserved
pub mod Laws
pub mod Recovery
pub mod Overtaking
pub mod LateRead
use influxdb_relay.Base.{
  ℕ, Bool, true, false, Option, none, some, List, [], ◌∷◌, ◌++◌, ◌≡◌, if◌then◌else◌, ◌==◌,
}
use influxdb_relay.Relay.Buffer.{Batch, BufferList, Cur, read_cur, new_buffer_list, add, pop, pops}
use influxdb_relay.Relay.Buffer.Runs.{Write}
use influxdb_relay.Base.Decimal.{pos}
use influxdb_relay.Relay.Retry.{Duration, Response, is_good, next_interval}

-- 500 ms
abbrev pub retry_initial : Duration
retry_initial = pos 500000000

-- Where `run` stands: before `pop`; before a call of the poster, with the interval; after a good
-- response, before the flag is reset; before `batch.wg.Done`.
pub data Runner : Type 0 where
  rests : Runner
  sends : Batch → Duration → Runner
  resets : Batch → Response → Runner
  releases : Batch → Response → Runner

-- Where a request's `post` stands: before the load of the flag; before the call of the poster; before
-- the store; before `add`; after its unlock, before `*cur` is read; at `wg.Wait`, with the `cur` of `add`
-- and the number of the batch that was read; and its three ends.
pub data Pc : Type 0 where
  idle : Pc
  posting : Write → Pc
  storing : Write → Pc
  adding : Write → Pc
  unlocked : Write → Cur → Pc
  waiting : Write → Cur → ℕ → Pc
  direct : Write → Response → Pc
  woken : Write → Cur → ℕ → Response → Pc
  refused : Write → Pc

-- What the goroutines share. `delivered` has the batches that are done, each with its `resp`; `accepted`,
-- which the code does not keep, the writes that `add` took. Both are oldest first.
pub record Shared : Type 0 where
  pub buffering : Bool
  pub list : BufferList
  pub runner : Runner
  pub delivered : List (Batch × Response)
  pub accepted : List Write

-- A batch that is done, by its number.
unfoldable pub delivered_at : ℕ → List (Batch × Response) → Option (Batch × Response)
delivered_at t [] = none
delivered_at t ((b, r) ∷ ds) = if b.id == t then some (b, r) else delivered_at t ds

-- A step of a request.
pub data Move (m : Shared) : Pc → Shared → Pc → Type 0 where
  load_off : (w : Write) → m.buffering ≡ false → Move m idle m (posting w)
  load_on : (w : Write) → m.buffering ≡ true → Move m idle m (adding w)
  answered :
      {w : Write} {r : Response} → is_good (some r) ≡ true → Move m (posting w) m (direct w r)
  failed :
      {w : Write} (reply : Option Response)
      → is_good reply ≡ false
      → Move m (posting w) m (storing w)
  store : {w : Write} → Move m (storing w) (record m { buffering = true }) (adding w)
  added :
      {w : Write} {c : Cur} {l : BufferList}
      → add m.list w.buf w.query w.auth ≡ some (l, c)
      → Move m (adding w) (record m { list = l; accepted = m.accepted ++ (w ∷ []) }) (unlocked w c)
  reads :
      {w : Write} {c : Cur} {t : ℕ}
      → read_cur c m.list.batches ≡ some t
      → Move m (unlocked w c) m (waiting w c t)
  full : {w : Write} → add m.list w.buf w.query w.auth ≡ none → Move m (adding w) m (refused w)
  wake :
      {w : Write} {c : Cur} {t : ℕ} {b : Batch} {r : Response}
      → delivered_at t m.delivered ≡ some (b, r)
      → Move m (waiting w c t) m (woken w c t r)

-- A step of `run`.
pub data Turn (max_interval : Duration) (m : Shared) : Shared → Type 0 where
  take :
      {b : Batch} {l : BufferList}
      → m.runner ≡ rests
      → pop m.list ≡ pops b l
      → Turn max_interval m (record m { list = l; runner = sends b retry_initial })
  fails :
      {b : Batch} {interval : Duration} (reply : Option Response)
      → m.runner ≡ sends b interval
      → is_good reply ≡ false
      → Turn max_interval m (record m { runner = sends b (next_interval max_interval interval) })
  answers :
      {b : Batch} {interval : Duration} {r : Response}
      → m.runner ≡ sends b interval
      → is_good (some r) ≡ true
      → Turn max_interval m (record m { runner = resets b r })
  reset :
      {b : Batch} {r : Response}
      → m.runner ≡ resets b r
      → Turn max_interval m (record m { buffering = false; runner = releases b r })
  release :
      {b : Batch} {r : Response}
      → m.runner ≡ releases b r
      → Turn max_interval m (record m { runner = rests; delivered = m.delivered ++ ((b, r) ∷ []) })

pub record System : Type 0 where
  pub mem : Shared
  pub pc : ℕ → Pc

abbrev pub update : (ℕ → Pc) → ℕ → Pc → ℕ → Pc
update f i p j = if i == j then p else f j

pub data Step (max_interval : Duration) (s : System) : System → Type 0 where
  request :
      (i : ℕ) {m : Shared} {p : Pc}
      → Move s.mem (s.pc i) m p
      → Step max_interval s (record { mem = m; pc = update s.pc i p })
  runs :
      {m : Shared} → Turn max_interval s.mem m → Step max_interval s (record { mem = m; pc = s.pc })

-- A request reads nil for its batch. It then calls Wait through it, which panics in a goroutine
-- that ServeHTTP has started, and so ends the process: no step follows.
pub data Crash (s : System) : Type 0 where
  nil_batch :
      (i : ℕ) {w : Write} {c : Cur}
      → s.pc i ≡ unlocked w c
      → read_cur c s.mem.list.batches ≡ none
      → Crash s

-- newRetryBuffer, with every request still to come.
unfoldable pub init : ℕ → ℕ → System
init size batch = record {
  mem = record {
    buffering = false;
    list = new_buffer_list size batch;
    runner = rests;
    delivered = [];
    accepted = [];
  };
  pc = λ i. idle;
}

pub data Reach (size batch : ℕ) (max_interval : Duration) : System → Type 0 where
  start : Reach size batch max_interval (init size batch)
  later :
      {s t : System}
      → Reach size batch max_interval s
      → Step max_interval s t
      → Reach size batch max_interval t

-- From one state to another by any number of steps.
pub data Steps (max_interval : Duration) (s : System) : System → Type 0 where
  here : Steps max_interval s s
  next : {t u : System} → Steps max_interval s t → Step max_interval t u → Steps max_interval s u

pub Reach-Steps :
    {size batch : ℕ} {max_interval : Duration} {s t : System}
    → Reach size batch max_interval s
    → Steps max_interval s t
    → Reach size batch max_interval t
Reach-Steps r here = r
Reach-Steps r (next steps st) = later (Reach-Steps r steps) st
