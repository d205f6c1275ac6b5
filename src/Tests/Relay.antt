-- ===== src/Tests/Relay.antt =====
-- The relay's buffers and answers.
use influxdb_relay.Base.{
  ℕ, true, false, none, some, List, [], ◌∷◌, ◌++◌, ◌≡◌, ◌≤◌, refl, inr, arith, if◌then◌else◌, ◌==◌,
  ◌/◌,
}
use influxdb_relay.Base.Decimal.{pos, negsuc}
use influxdb_relay.Relay.Buffer.{
  Bytes, BufferList, read_cur, new_buffer_list, new_batch, place, add, pop, pop_batches, waits,
}
use influxdb_relay.Relay.Buffer.Order.{pending}
use influxdb_relay.Relay.Buffer.Bounds.{
  bytes_of, sizes, IsValid, new-IsValid, AddsTo, add-AddsTo, PopsTo, pop-PopsTo, pop-empty_writes,
}
use influxdb_relay.Relay.Buffer.Runs.{
  Write, Op, adds, takes, step, run, start, after_add, after_pop, writes_of, run-delivers,
  run-bounded,
}
use influxdb_relay.Relay.Retry.{
  Response, Poster, RetryBuffer, waits_for, nil_batch, post_read, is_good, post, post_replied,
  post_added, retry, slept, double, next_interval,
}
use influxdb_relay.Relay.Retry.Laws.{PostsTo, post-PostsTo, doubled, retry-doubles}
use influxdb_relay.Relay.Udp
use influxdb_relay.Relay.Udp.{Send, done, too_large, post_from, last_index, before_index, send_last}
use influxdb_relay.Relay.Udp.Laws.{Posts, post-Posts}
use influxdb_relay.Relay.Responses.{answer, select, no_content, passes, no_success}
use influxdb_relay.Relay.Responses.Laws.{answer-first, answer_any, any_success, last_or}

abbrev small : Write
small = record { buf = 65 ∷ 10 ∷ []; query = "db=a"; auth = "" }

abbrev other : Write
other = record { buf = 66 ∷ 66 ∷ 10 ∷ []; query = "db=b"; auth = "" }

abbrev big : Write
big = record { buf = 67 ∷ 67 ∷ 67 ∷ 10 ∷ []; query = "db=a"; auth = "" }

abbrev ops : List Op
ops = adds small ∷ adds other ∷ adds small ∷ adds big ∷ takes ∷ adds small ∷ []

-- In a list for ten bytes and batches of four: the fourth write finds no room.
ran :
    (pending "db=a" "" (run (start 10 4) ops).taken ≡ small.buf ∷ small.buf ∷ [])
    × (pending "db=a" "" (run (start 10 4) ops).list.batches ≡ small.buf ∷ [])
    × (pending "db=b" "" (run (start 10 4) ops).list.batches ≡ other.buf ∷ [])
    × ((run (start 10 4) ops).list.size ≡ 5)
unfolding run start step after_add after_pop add pop pop_batches place new_batch new_buffer_list
    pending
ran = (refl, refl, refl, refl)

run-delivers_example :
    writes_of "db=a" "" (run (start 10 4) ops).accepted
    ≡ pending "db=a" "" (run (start 10 4) ops).taken
      ++ pending "db=a" "" (run (start 10 4) ops).list.batches
run-delivers_example = run-delivers 10 4 ops "db=a" ""

run-bounded_example : sizes (run (start 10 4) ops).list.batches ≤ 10
run-bounded_example = run-bounded 10 4 ops

add-AddsTo_example :
    AddsTo (new_buffer_list 10 4) big.buf (add (new_buffer_list 10 4) big.buf big.query big.auth)
add-AddsTo_example = add-AddsTo (new_buffer_list 10 4) big.buf big.query big.auth (new-IsValid 10 4)

abbrev one_batch : BufferList
one_batch = record {
  batches =
      record {
        id = 0;
        query = "db=a";
        auth = "";
        bufs = (65 ∷ 10 ∷ []) ∷ [];
        size = 2;
        full = false;
      }
      ∷ [];
  size = 2;
  max_size = 10;
  max_batch = 4;
  next_id = 1;
}

one_batch-IsValid : IsValid one_batch
unfolding sizes bytes_of
one_batch-IsValid = (refl, omega arith, ((refl, inr refl), tt))

pop-PopsTo_example : PopsTo one_batch (pop one_batch)
pop-PopsTo_example = pop-PopsTo one_batch one_batch-IsValid

-- A list that holds one write of no bytes.
abbrev empty_write : BufferList
empty_write = record {
  batches =
      record { id = 0; query = "db=a"; auth = ""; bufs = [] ∷ []; size = 0; full = false } ∷ [];
  size = 0;
  max_size = 10;
  max_batch = 4;
  next_id = 1;
}

empty_write-IsValid : IsValid empty_write
unfolding sizes bytes_of
empty_write-IsValid = (refl, omega arith, ((refl, inr refl), tt))

no_bytes : (bytes_of ([] ∷ []) ≡ 0) × Unit {0}
unfolding bytes_of
no_bytes = (refl, tt)

-- It is what `add` makes of a write of no bytes.
added_empty :
    add (new_buffer_list 10 4) [] "db=a" ""
    ≡ some (empty_write, record { taker = 0; is_head = true })
unfolding add new_buffer_list place new_batch
added_empty = refl

pop-empty_writes_example : pop empty_write ≡ waits
pop-empty_writes_example = pop-empty_writes empty_write empty_write-IsValid no_bytes

abbrev reply : ℕ → Response
reply code = record { content_type = ""; content_encoding = ""; status_code = code; body = [] }

abbrev failing : Poster
failing buf query auth = some (reply 503)

abbrev idle : RetryBuffer
idle = record { buffering = false; list = new_buffer_list 10 4 }

posted : (post (λ l. l) idle failing (65 ∷ 10 ∷ []) "db=a" "").0 ≡ waits_for 0
unfolding post post_replied post_added post_read read_cur is_good add place new_batch
    new_buffer_list
posted = refl

-- `run` takes the write's batch before `*cur` is read.
abbrev popping : BufferList → BufferList
popping l = record l { batches = []; size = 0 }

read_nil : (post popping idle failing (65 ∷ 10 ∷ []) "db=a" "").0 ≡ nil_batch
unfolding post post_replied post_added post_read read_cur is_good add place new_batch
    new_buffer_list
read_nil = refl

post-PostsTo_example :
    PostsTo popping idle failing
      (65 ∷ 10 ∷ [])
      "db=a"
      ""
      (post popping idle failing (65 ∷ 10 ∷ []) "db=a" "")
unfolding new_buffer_list
post-PostsTo_example = post-PostsTo popping idle failing (65 ∷ 10 ∷ []) "db=a" "" tt (omega arith)

-- Milliseconds, for short.
retried :
    retry (pos 1500) (pos 500) (none ∷ some (reply 500) ∷ some (reply 204) ∷ [])
    ≡ some (reply 204, pos 1000 ∷ pos 1500 ∷ [])
unfolding retry slept next_interval double is_good
retried = refl

-- With a negative maximum nothing is slept.
retried_at_once :
    retry (negsuc 0) (pos 500) (none ∷ none ∷ some (reply 204) ∷ [])
    ≡ some (reply 204, negsuc 0 ∷ negsuc 0 ∷ [])
unfolding retry slept next_interval double is_good
retried_at_once = refl

bad_replies : (is_good none ≡ false) × ((is_good (some (reply 500)) ≡ false) × Unit {0})
unfolding is_good
bad_replies = (refl, (refl, tt))

good_reply : is_good (some (reply 204)) ≡ true
unfolding is_good
good_reply = refl

retry-doubles_example :
    retry
      (pos 10000000000)
      (pos 500000000)
      ((none ∷ some (reply 500) ∷ []) ++ (some (reply 204) ∷ []))
    ≡ some (reply 204, doubled 10000000000 500000000 2)
retry-doubles_example =
    retry-doubles 10000000000 500000000 (none ∷ some (reply 500) ∷ []) [] (reply 204) (omega arith)
      (omega arith) bad_replies good_reply

answers :
    (answer (reply 500 ∷ reply 204 ∷ reply 400 ∷ []) ≡ no_content)
    × (answer (reply 500 ∷ reply 400 ∷ reply 204 ∷ []) ≡ passes (reply 400))
    × (answer (reply 500 ∷ reply 302 ∷ []) ≡ passes (reply 302))
unfolding answer select no_success
answers = (refl, refl, refl)

answer-first_example :
    answer ((reply 500 ∷ []) ++ (reply 400 ∷ reply 204 ∷ []))
    ≡ (if 400 / 100 == 2 then no_content else passes (reply 400))
answer-first_example = answer-first (reply 500 ∷ []) (reply 204 ∷ []) (reply 400) (refl, tt) refl

late_success : answer (reply 500 ∷ reply 204 ∷ []) ≡ (
    if any_success (reply 500 ∷ reply 204 ∷ [])
    then no_content
    else no_success (last_or none (reply 500 ∷ reply 204 ∷ [])))
late_success = answer_any (reply 500 ∷ reply 204 ∷ []) (refl, (refl, tt))

-- Three lines, of two, three and two bytes.
abbrev lines : Bytes
lines = 65 ∷ 10 ∷ 66 ∷ 66 ∷ 10 ∷ 67 ∷ 10 ∷ []

abbrev reaches : Send
reaches sent payload = true

datagrams :
    (Udp.post reaches 5 lines ≡ some ((65 ∷ 10 ∷ 66 ∷ 66 ∷ 10 ∷ []) ∷ (67 ∷ 10 ∷ []) ∷ [], done))
    × (Udp.post reaches 2 lines ≡ some ((65 ∷ 10 ∷ []) ∷ [], too_large))
unfolding Udp.post post_from last_index before_index send_last
datagrams = (refl, refl)

post-Posts_example : Posts 5 lines (Udp.post reaches 5 lines)
post-Posts_example = post-Posts reaches 5 lines
