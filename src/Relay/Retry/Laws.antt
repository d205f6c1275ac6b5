-- ===== src/Relay/Retry/Laws.antt =====
-- What `post` does with a write, and how often and how long a batch is retried.
use influxdb_relay.Base.{
  ℕ, zero, suc, ◌+◌, ◌*◌, ◌<◌, ◌≡◌, ◌≢◌, ◌==◌, sym, ◌⊎◌, inl, inr, refl, ap, ◌∙◌, Bool, true, false,
  Option, none, some, String, List, [], ◌∷◌, ◌++◌, if◌then◌else◌, All, arith, Bool-cases, length,
}
use influxdb_relay.Base.Decimal.{pos}
use influxdb_relay.Relay.Buffer.{Bytes, Batch, BufferList, Cur, head_of, read_cur, add}
use influxdb_relay.Relay.Buffer.Ids.{Ascends, Holds, placed-Holds, cur_of, add-cases}
use influxdb_relay.Relay.Buffer.Order.{pending, OneOpen, pending-placed}
use influxdb_relay.Relay.Buffer.Bounds.{added}
use influxdb_relay.Relay.Retry.{
  Response, Poster, RetryBuffer, Posted, answered, waits_for, refused, nil_batch, Meanwhile,
  post_read, is_good, post_added, post_replied, post, Duration, int64_limit, double, next_interval,
  retry, slept,
}
use Prim.Native.Nat.{min}

-- The sleeps that doubling from an interval gives, each cut off at the greatest.
unfoldable pub doubled : ℕ → ℕ → ℕ → List Duration
doubled max_interval interval zero = []
doubled max_interval interval (suc n) =
    pos (min (interval * 2) max_interval) ∷ doubled max_interval (interval * 2) n

next_interval-min :
    (m i j : ℕ)
    → i * 2 < int64_limit
    → (i ≡ j) ⊎ (i ≡ min j m)
    → next_interval (pos m) (pos i) ≡ pos (min (j * 2) m)
unfolding next_interval double
next_interval-min m i j small h = ground arith

retry-bad :
    (m i : Duration) (reply : Option Response) (replies : List (Option Response))
    → is_good reply ≡ false
    → retry m i (reply ∷ replies) ≡ slept (next_interval m i) (retry m (next_interval m i) replies)
unfolding retry
retry-bad m i none replies h = refl
retry-bad m i (some r) replies h = rw h refl

retry_from :
    (m i j : ℕ) (bads rest : List (Option Response)) (r : Response)
    → m * 2 < int64_limit
    → i * 2 < int64_limit
    → (i ≡ j) ⊎ (i ≡ min j m)
    → All (λ reply. is_good reply ≡ false) bads
    → is_good (some r) ≡ true
    → retry (pos m) (pos i) (bads ++ (some r ∷ rest)) ≡ some (r, doubled m j (length bads))
unfolding retry doubled slept
retry_from m i j [] rest r most small h bad good = rw good refl
retry_from m i j (b ∷ bads) rest r most small h bad good =
    let next = next_interval-min m i j small h in
    let still : min (j * 2) m * 2 < int64_limit = omega arith in
    rw
      (
        retry-bad (pos m) (pos i) b (bads ++ (some r ∷ rest)) bad.0,
        next,
        retry_from m (min (j * 2) m) (j * 2) bads rest r most still (inr refl) bad.1 good,
      )
      refl

-- For a maximum and an initial interval that are not negative and whose doubles are below 2 ^ 63 ns: after any
-- number of errors and 5xx replies, the first other reply ends the loop of `run` and is its
-- result; the sleeps before it are the initial interval doubled once, twice and so on, each cut off at the
-- maximum interval. So the first sleep is twice the initial interval of 500 ms, not that interval, if
-- the maximum allows it.
pub retry-doubles :
    (max_interval initial : ℕ) (bads rest : List (Option Response)) (r : Response)
    → max_interval * 2 < int64_limit
    → initial * 2 < int64_limit
    → All (λ reply. is_good reply ≡ false) bads
    → is_good (some r) ≡ true
    → retry (pos max_interval) (pos initial) (bads ++ (some r ∷ rest))
      ≡ some (r, doubled max_interval initial (length bads))
retry-doubles m i bads rest r most small = retry_from m i i bads rest r most small (inl refl)

-- The write is in the batch that took it; the batch that is read is that one, unless the one that took it was the
-- head and has been replaced there.
abbrev pub WaitsFor : BufferList → Bytes → String → String → BufferList → ℕ → Type 0
WaitsFor l buf query auth later t =
    let c = cur_of l buf query auth in
    Holds c.taker buf query auth (added l buf query auth).batches
    × ((t ≡ c.taker) ⊎ ((t ≢ c.taker) × (c.is_head ≡ true) × (head_of later.batches ≡ some t)))

-- What may come of a write: a good answer of the poster while nothing was buffered, and nothing is still; or a
-- place behind the writes of its key; or a refusal for want of room, and the list is as it was; or nil.
abbrev pub PostsTo :
    Meanwhile → RetryBuffer → Poster → Bytes → String → String → Posted × RetryBuffer → Type 0
PostsTo m r p buf query auth (answered resp, s) =
    (p buf query auth ≡ some resp) × (is_good (some resp) ≡ true) × (r.buffering ≡ false) × (s ≡ r)
PostsTo m r p buf query auth (waits_for t, s) =
    (s.buffering ≡ true)
    × (s.list ≡ m (added r.list buf query auth))
    × (pending query auth (added r.list buf query auth).batches
        ≡ pending query auth r.list.batches ++ (buf ∷ []))
    × WaitsFor r.list buf query auth s.list t
    × ((r.buffering ≡ true) ⊎ (is_good (p buf query auth) ≡ false))
PostsTo m r p buf query auth (refused, s) =
    (s.buffering ≡ true)
    × (r.list.max_size < r.list.size + length buf)
    × (s.list ≡ r.list)
    × ((r.buffering ≡ true) ⊎ (is_good (p buf query auth) ≡ false))
PostsTo m r p buf query auth (nil_batch, s) =
    (s.buffering ≡ true)
    × (s.list ≡ m (added r.list buf query auth))
    × ((cur_of r.list buf query auth).is_head ≡ true)
    × (head_of s.list.batches ≡ none)
    × ((r.buffering ≡ true) ⊎ (is_good (p buf query auth) ≡ false))

-- The two ways of `*cur`.
read_cur-head :
    (c : Cur) (bs : List Batch)
    → (read_cur c bs ≡ some c.taker) ⊎ ((c.is_head ≡ true) × (read_cur c bs ≡ head_of bs))
unfolding read_cur
read_cur-head c bs = elim (Bool-cases c.is_head) [
  | inl e ↦ inr (e, rw e refl)
  | inr e ↦ inl (rw e refl)
]

pub is_good-none : is_good none ≡ false
unfolding is_good
is_good-none = refl

module _ (m : Meanwhile) (r : RetryBuffer) (p : Poster) (buf : Bytes) (query auth : String)
    (h : OneOpen r.list.batches) (ids : Ascends 0 r.list.next_id r.list.batches) where
  abbrev later : BufferList
  later = m (added r.list buf query auth)

  held :
      Holds
        (cur_of r.list buf query auth).taker
        buf
        query
        auth
        (added r.list buf query auth).batches
  held = (placed-Holds r.list.max_batch r.list.next_id buf query auth 0 r.list.batches ids).1

  read-PostsTo :
      (s : RetryBuffer) (o : Option ℕ)
      → (r.buffering ≡ true) ⊎ (is_good (p buf query auth) ≡ false)
      → s.buffering ≡ true
      → read_cur (cur_of r.list buf query auth) later.batches ≡ o
      → PostsTo m r p buf query auth (post_read o, record s { list = later })
  unfolding post_read
  read-PostsTo s none why on e = elim (read_cur-head (cur_of r.list buf query auth) later.batches) [
    | inl x ↦ ground arith
    | inr x ↦ (on, refl, x.0, sym x.1 ∙ e, why)
  ]
  read-PostsTo s (some t) why on e = (
    on,
    refl,
    pending-placed _ _ buf query auth r.list.batches h,
    (
      held,
      elim (read_cur-head (cur_of r.list buf query auth) later.batches) [
        | inl x ↦ inl (ground arith)
        | inr x ↦ elim (Bool-cases (t == (cur_of r.list buf query auth).taker)) [
          | inl g ↦ inl (ground arith)
          | inr g ↦ inr (ground arith, x.0, sym x.1 ∙ e)
        ]
      ],
    ),
    why,
  )

  post_added-PostsTo :
      (s : RetryBuffer)
      → (r.buffering ≡ true) ⊎ (is_good (p buf query auth) ≡ false)
      → s.buffering ≡ true
      → s.list ≡ r.list
      → PostsTo m r p buf query auth (post_added m s (add r.list buf query auth))
  unfolding post_added
  post_added-PostsTo s why on same = elim (add-cases r.list buf query auth) [
    | inl n ↦ rw (n.0) (on, n.1, same, why)
    | inr e ↦ rw e (read-PostsTo s _ why on refl)
  ]

  post_replied-PostsTo :
      (o : Option Response)
      → r.buffering ≡ false
      → p buf query auth ≡ o
      → PostsTo m r p buf query auth (post_replied m r o buf query auth)
  unfolding post_replied
  post_replied-PostsTo none off e =
      post_added-PostsTo _ (inr (ap is_good e ∙ is_good-none)) refl refl
  post_replied-PostsTo (some resp) off e = elim (Bool-cases (is_good (some resp))) [
    | inl g ↦ rw g (e, g, off, refl)
    | inr g ↦ rw g (post_added-PostsTo _ (inr (ap is_good e ∙ g)) refl refl)
  ]

  post_when-PostsTo :
      (on : Bool)
      → r.buffering ≡ on
      → PostsTo m r p buf query auth (
          if on
          then post_added m r (add r.list buf query auth)
          else post_replied m r (p buf query auth) buf query auth)
  post_when-PostsTo true e = post_added-PostsTo r (inl e) e refl
  post_when-PostsTo false e = post_replied-PostsTo _ e refl

-- In a list with batches of ascending numbers where of each key only the last batch is open, whatever the other
-- goroutines do to the list after the unlock of `add`: `post` either returns the poster's own
-- non-5xx response, only when not buffering, and changes nothing; or it buffers, and the write is now
-- the last pending one of its key; or it refuses the write, which then does not fit, and the list is unchanged.
-- A buffered write is in the batch that took it, and `post` waits for that batch, unless it was the
-- head and the head has changed since: then it waits for the batch that is the head now, or panics where there
-- is none. Where it does not answer, it buffers from then on, and either it buffered
-- before or the poster failed.
pub post-PostsTo :
    (meanwhile : Meanwhile) (r : RetryBuffer) (p : Poster) (buf : Bytes) (query auth : String)
    → OneOpen r.list.batches
    → Ascends 0 r.list.next_id r.list.batches
    → PostsTo meanwhile r p buf query auth (post meanwhile r p buf query auth)
unfolding post
post-PostsTo m r p buf query auth h ids =
    post_when-PostsTo m r p buf query auth h ids r.buffering refl
