-- ===== src/Relay/Retry.antt =====
-- relay/retry.go: the retry buffer around its list.
pub mod Laws
use influxdb_relay.Base.{
  leb, ◌+◌, ◌-◌, ℕ, ◌/◌, ◌*◌, Bool, true, false, not, Option, none, some, String, List, [], ◌∷◌,
  if◌then◌else◌, ltb, ◌==◌,
}
use influxdb_relay.Base.Decimal.{ℤ, pos, negsuc}
use influxdb_relay.Relay.Buffer.{Bytes, BufferList, Cur, read_cur, add}

-- time.Duration, a signed number of nanoseconds of 64 bits.
abbrev pub Duration : Type 0
Duration = ℤ

-- responseData; `backendName` is set nowhere.
pub record Response : Type 0 where
  pub content_type : String
  pub content_encoding : String
  pub status_code : ℕ
  pub body : Bytes

-- What a poster answers; none is an error.
abbrev pub Poster : Type 0
Poster = Bytes → String → String → Option Response

pub record RetryBuffer : Type 0 where
  pub buffering : Bool
  pub list : BufferList

-- `post` hands on the poster's response, or waits for the batch of a number, or fails for want of room,
-- or waits through nil, which panics.
pub data Posted : Type 0 where
  answered : Response → Posted
  waits_for : ℕ → Posted
  refused : Posted
  nil_batch : Posted

-- `err == nil && resp.StatusCode/100 != 5`
unfoldable pub is_good : Option Response → Bool
is_good none = false
is_good (some r) = not (r.status_code / 100 == 5)

unfoldable pub post_read : Option ℕ → Posted
post_read none = nil_batch
post_read (some t) = waits_for t

-- What the other goroutines do to the list after the unlock of `add` and before `*cur` is read.
abbrev pub Meanwhile : Type 0
Meanwhile = BufferList → BufferList

unfoldable pub post_added :
    Meanwhile → RetryBuffer → Option (BufferList × Cur) → Posted × RetryBuffer
post_added meanwhile r none = (refused, r)
post_added meanwhile r (some (l, cur)) =
    (post_read (read_cur cur (meanwhile l).batches), record r { list = meanwhile l })

unfoldable pub post_replied :
    Meanwhile → RetryBuffer → Option Response → Bytes → String → String → Posted × RetryBuffer
post_replied meanwhile r none buf query auth =
    post_added meanwhile (record r { buffering = true }) (add r.list buf query auth)
post_replied meanwhile r (some resp) buf query auth =
    if is_good (some resp)
    then (answered resp, r)
    else post_added meanwhile (record r { buffering = true }) (add r.list buf query auth)

unfoldable pub post :
    Meanwhile → RetryBuffer → Poster → Bytes → String → String → Posted × RetryBuffer
post meanwhile r p buf query auth =
    if r.buffering
    then post_added meanwhile r (add r.list buf query auth)
    else post_replied meanwhile r (p buf query auth) buf query auth

abbrev pub int64_limit : ℕ
int64_limit = 9223372036854775808

abbrev eq_int : ℤ → ℤ → Bool
eq_int (pos a) (pos b) = a == b
eq_int (negsuc a) (negsuc b) = a == b
eq_int a b = false

abbrev lt_int : ℤ → ℤ → Bool
lt_int (pos a) (pos b) = ltb a b
lt_int (pos a) (negsuc b) = false
lt_int (negsuc a) (pos b) = true
lt_int (negsuc a) (negsuc b) = ltb b a

-- `interval *= 2`, which wraps around.
unfoldable pub double : Duration → Duration
double (pos n) =
    if ltb (n * 2) int64_limit then pos (n * 2) else negsuc (2 * int64_limit - 1 - n * 2)
double (negsuc n) =
    if leb (n * 2 + 2) int64_limit then negsuc (n * 2 + 1) else pos (2 * int64_limit - (n * 2 + 2))

unfoldable pub next_interval : Duration → Duration → Duration
next_interval max_interval interval =
    if eq_int interval max_interval
    then interval
    else if lt_int max_interval (double interval)
    then max_interval
    else double interval

unfoldable pub slept :
    Duration → Option (Response × List Duration) → Option (Response × List Duration)
slept next none = none
slept next (some (resp, sleeps)) = some (resp, next ∷ sleeps)

-- The inner loop of `run` over the replies to one batch: the response that ends it and the sleeps before, or
-- none while all replies were bad.
unfoldable pub retry :
    Duration → Duration → List (Option Response) → Option (Response × List Duration)
retry max_interval interval [] = none
retry max_interval interval (none ∷ replies) =
    let next = next_interval max_interval interval in slept next (retry max_interval next replies)
retry max_interval interval (some resp ∷ replies) =
    let next = next_interval max_interval interval in
    let rest = slept next (retry max_interval next replies) in
    if is_good (some resp) then some (resp, []) else rest
