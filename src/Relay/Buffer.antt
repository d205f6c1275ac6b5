-- ===== src/Relay/Buffer.antt =====
-- relay/retry.go: the list of batches that hold writes for a backend that fails. A batch is known by
-- a number where the source has its address. Sizes are those of slices in memory, below 2 ^ 63, so
-- their sums are plain numbers.
pub mod Order
pub mod Ways
pub mod Bounds
pub mod Runs
pub mod Ids
use influxdb_relay.Base.{
  ℕ, suc, ◌+◌, ◌-◌, Bool, true, false, not, ◌&&◌, ◌||◌, String, Option, none, some, List, [], ◌∷◌,
  ◌++◌, if◌then◌else◌, ltb, ◌==◌, length,
}
use text.Mathlib.Text.{◌==◌ as str_eq}

abbrev pub Bytes : Type 0
Bytes = List ℕ

-- `wg` and `resp` belong to the waiting writers and are left out; `next` is the list's order.
pub record Batch : Type 0 where
  pub id : ℕ
  pub query : String
  pub auth : String
  pub bufs : List Bytes
  pub size : ℕ
  pub full : Bool

pub record BufferList : Type 0 where
  pub batches : List Batch
  pub size : ℕ
  pub max_size : ℕ
  pub max_batch : ℕ
  -- the number of the next batch to be made
  pub next_id : ℕ

unfoldable pub new_buffer_list : ℕ → ℕ → BufferList
new_buffer_list max_size max_batch = record {
  batches = [];
  size = 0;
  max_size = max_size;
  max_batch = max_batch;
  next_id = 0;
}

unfoldable pub new_batch : ℕ → Bytes → String → String → Batch
new_batch id buf query auth = record {
  id = id;
  query = query;
  auth = auth;
  bufs = buf ∷ [];
  size = length buf;
  full = false;
}

abbrev pub has_key : String → String → Batch → Bool
has_key query auth b = str_eq b.query query && str_eq b.auth auth

-- The `for` loop of `add` and what it does at the place where it stops: the batches, and the number of
-- the one that took the write.
unfoldable pub place : ℕ → ℕ → Bytes → String → String → List Batch → List Batch × ℕ
place max_batch id buf query auth [] = (new_batch id buf query auth ∷ [], id)
place max_batch id buf query auth (b ∷ bs) =
    let (rest, taker) = place max_batch id buf query auth bs in
    if not (has_key query auth b) || b.full
    then (b ∷ rest, taker)
    else if ltb max_batch (b.size + length buf)
    then (record b { full = true } ∷ rest, taker)
    else (record b { size = b.size + length buf; bufs = b.bufs ++ (buf ∷ []) } ∷ bs, b.id)

-- `cur` when `add` unlocks: whether it points to the list's head or to the `next` of a batch, and the
-- batch that it leads to then, which is the one that took the write.
pub record Cur : Type 0 where
  pub taker : ℕ
  pub is_head : Bool

abbrev pub is_first : List Batch → ℕ → Bool
is_first [] t = false
is_first (b ∷ bs) t = b.id == t

abbrev pub head_of : List Batch → Option ℕ
head_of [] = none
head_of (b ∷ bs) = some b.id

-- `return *cur`, which comes after the unlock, so that other goroutines may have changed the batches
-- by then; none is nil. The head may be another batch, or none; a `next` that is set is never written
-- again.
unfoldable pub read_cur : Cur → List Batch → Option ℕ
read_cur c bs = if c.is_head then head_of bs else some c.taker

-- `add` up to the unlock. None is ErrBufferFull.
unfoldable pub add : BufferList → Bytes → String → String → Option (BufferList × Cur)
add l buf query auth =
    if ltb l.max_size (l.size + length buf)
    then none
    else let (batches, taker) = place l.max_batch l.next_id buf query auth l.batches in
      some (
        record l { batches = batches; size = l.size + length buf; next_id = suc l.next_id },
        record { taker = taker; is_head = is_first batches taker },
      )

-- What `pop` comes to: it waits for a write, it reads through a nil head, or it takes a batch.
pub data Popped : Type 0 where
  waits : Popped
  faults : Popped
  pops : Batch → BufferList → Popped

unfoldable pub pop_batches : BufferList → List Batch → Popped
pop_batches l [] = faults
pop_batches l (b ∷ bs) = pops b (record l { batches = bs; size = l.size - b.size })

unfoldable pub pop : BufferList → Popped
pop l = if l.size == 0 then waits else pop_batches l l.batches
