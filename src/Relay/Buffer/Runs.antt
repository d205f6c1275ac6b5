-- ===== src/Relay/Buffer/Runs.antt =====
-- Sequences of `add` and `pop`, each of which holds the list's lock while it runs.
use influxdb_relay.Base.{
  ℕ, ◌≤◌, true, ◌&&◌, String, Option, none, some, List, [], ◌∷◌, ◌++◌, ◌≡◌, refl, sym, subst, ◌∙◌,
  inl, inr, if◌then◌else◌, arith, eq_iff, Bool-cases,
}
use influxdb_relay.Relay.Buffer.{
  Cur, Bytes, Batch, BufferList, new_buffer_list, add, pop, Popped, pops, waits, faults,
}
use influxdb_relay.Relay.Buffer.Order.{
  pending, OneOpen, place-OneOpen, pending-placed, others-placed, pending-append,
}
use influxdb_relay.Relay.Buffer.Bounds.{
  sizes, IsValid, AddWay, refuses, accepts, add-AddWay, add-AddsTo, AddsTo, PopsTo, pop-PopsTo,
  added, new-IsValid,
}
use mathlib.Core.List.{append_assoc, append-nil}
use text.Mathlib.Text.{◌==◌ as str_eq}

pub record Write : Type 0 where
  pub buf : Bytes
  pub query : String
  pub auth : String

pub data Op : Type 0 where
  adds : Write → Op
  takes : Op

-- The list, the writes that it accepted and the batches that were taken from it, both oldest first.
pub record Ran : Type 0 where
  pub list : BufferList
  pub accepted : List Write
  pub taken : List Batch

unfoldable pub after_add : Ran → Write → Option (BufferList × Cur) → Ran
after_add s w none = s
after_add s w (some (l, taker)) = record s { list = l; accepted = s.accepted ++ (w ∷ []) }

unfoldable pub after_pop : Ran → Popped → Ran
after_pop s (pops b l) = record s { list = l; taken = s.taken ++ (b ∷ []) }
after_pop s waits = s
after_pop s faults = s

unfoldable pub step : Ran → Op → Ran
step s (adds w) = after_add s w (add s.list w.buf w.query w.auth)
step s takes = after_pop s (pop s.list)

unfoldable pub run : Ran → List Op → Ran
run s [] = s
run s (op ∷ ops) = run (step s op) ops

unfoldable pub start : ℕ → ℕ → Ran
start max_size max_batch = record {
  list = new_buffer_list max_size max_batch;
  accepted = [];
  taken = [];
}

-- The writes of a key, in order.
unfoldable pub writes_of : String → String → List Write → List Bytes
writes_of query auth [] = []
writes_of query auth (w ∷ ws) =
    let rest = writes_of query auth ws in
    if str_eq w.query query && str_eq w.auth auth then w.buf ∷ rest else rest

pub writes_of-snoc :
    (query auth : String) (ws : List Write) (w : Write)
    → writes_of query auth (ws ++ (w ∷ []))
      ≡ writes_of query auth ws ++ writes_of query auth (w ∷ [])
unfolding writes_of
writes_of-snoc query auth [] w = refl
writes_of-snoc query auth (v ∷ ws) w =
    elim (Bool-cases (str_eq v.query query && str_eq v.auth auth)) [
      | inl e ↦ rw (e, writes_of-snoc query auth ws w) refl
      | inr e ↦ rw (e, writes_of-snoc query auth ws w) refl
    ]

abbrev Delivers : Ran → Type 0
Delivers s =
    (query auth : String)
    → writes_of query auth s.accepted
      ≡ pending query auth s.taken ++ pending query auth s.list.batches

abbrev Keeps : ℕ → Ran → Type 0
Keeps max_size s =
    IsValid s.list × OneOpen s.list.batches × Delivers s × (s.list.max_size ≡ max_size)

pending-own :
    (l : BufferList) (w : Write) (query auth : String)
    → (str_eq w.query query && str_eq w.auth auth) ≡ true
    → OneOpen l.batches
    → pending query auth (added l w.buf w.query w.auth).batches
      ≡ pending query auth l.batches ++ (w.buf ∷ [])
pending-own l w query auth e h =
    let qs : w.query ≡ query = ground (arith, eq_iff w.query query) in
    let keys : w.auth ≡ auth = ground (arith, eq_iff w.auth auth) in
    subst
      (λ q.
        pending q auth (added l w.buf w.query w.auth).batches
        ≡ pending q auth l.batches ++ (w.buf ∷ []))
      qs
      (subst
        (λ a.
          pending w.query a (added l w.buf w.query w.auth).batches
          ≡ pending w.query a l.batches ++ (w.buf ∷ []))
        keys (pending-placed l.max_batch l.next_id w.buf w.query w.auth l.batches h))

-- What `add` does to the pending writes of any key.
pub pending-added :
    (l : BufferList) (w : Write) (query auth : String)
    → OneOpen l.batches
    → pending query auth (added l w.buf w.query w.auth).batches
      ≡ pending query auth l.batches ++ writes_of query auth (w ∷ [])
unfolding writes_of
pending-added l w query auth h = elim (Bool-cases (str_eq w.query query && str_eq w.auth auth)) [
  | inl e ↦ rw e (pending-own l w query auth e h)
  | inr e ↦
      rw (e, append-nil (pending query auth l.batches))
        (others-placed l.max_batch l.next_id w.buf w.query w.auth query auth l.batches e)
]

after_add-Keeps :
    (m : ℕ) (s : Ran) (w : Write) (o : Option (BufferList × Cur))
    → Keeps m s
    → AddWay s.list w.buf w.query w.auth o
    → AddsTo s.list w.buf o
    → Keeps m (after_add s w o)
unfolding after_add
after_add-Keeps m s w none h (refuses over) t = h
after_add-Keeps m s w o h (accepts taker room) t = (
  t.3,
  place-OneOpen _ _ _ _ _ s.list.batches h.1,
  λ query auth.
      rw
        (
          writes_of-snoc query auth s.accepted w,
          pending-added s.list w query auth h.1,
          h.2 query auth,
          append_assoc (pending query auth s.taken) (pending query auth s.list.batches)
              (writes_of query auth (w ∷ [])),
        )
        refl,
  h.3,
)

after_pop-Keeps :
    (m : ℕ) (s : Ran) (p : Popped) → Keeps m s → PopsTo s.list p → Keeps m (after_pop s p)
unfolding after_pop
after_pop-Keeps m s waits h t = h
after_pop-Keeps m s faults h t = h
after_pop-Keeps m s (pops b l) h t = (
  t.4,
  (subst OneOpen t.0 h.1).1,
  λ query auth.
      rw
        (
          pending-append query auth s.taken (b ∷ []),
          append_assoc (pending query auth s.taken) (pending query auth (b ∷ []))
              (pending query auth l.batches),
          sym (pending-append query auth (b ∷ []) l.batches),
          sym t.0,
        )
        (h.2 query auth),
  t.2 ∙ h.3,
)

step-Keeps : (m : ℕ) (s : Ran) (op : Op) → Keeps m s → Keeps m (step s op)
unfolding step
step-Keeps m s (adds w) h =
    after_add-Keeps m s w _ h (add-AddWay s.list w.buf w.query w.auth)
      (add-AddsTo s.list w.buf w.query w.auth h.0)
step-Keeps m s takes h = after_pop-Keeps m s _ h (pop-PopsTo s.list h.0)

run-Keeps : (m : ℕ) (s : Ran) (ops : List Op) → Keeps m s → Keeps m (run s ops)
unfolding run
run-Keeps m s [] h = h
run-Keeps m s (op ∷ ops) h = run-Keeps m (step s op) ops (step-Keeps m s op h)

start-Keeps : (max_size max_batch : ℕ) → Keeps max_size (start max_size max_batch)
unfolding start new_buffer_list writes_of pending
start-Keeps max_size max_batch = (new-IsValid max_size max_batch, tt, λ query auth. refl, refl)

-- Whatever adds and pops are done to a new list, for each query and authorization the writes that `add`
-- accepted are, in their order, those of the batches that `pop` gave followed by those still in the list: none is lost,
-- doubled, reordered or mixed with another key's.
pub run-delivers :
    (max_size max_batch : ℕ) (ops : List Op) (query auth : String)
    → writes_of query auth (run (start max_size max_batch) ops).accepted
      ≡ pending query auth (run (start max_size max_batch) ops).taken
        ++ pending query auth (run (start max_size max_batch) ops).list.batches
run-delivers max_size max_batch ops =
    (run-Keeps max_size (start max_size max_batch) ops (start-Keeps max_size max_batch)).2

-- Whatever adds and pops are done to a new list, the sizes of its batches never come to more than the
-- maximum size it was made with.
pub run-bounded :
    (max_size max_batch : ℕ) (ops : List Op)
    → sizes (run (start max_size max_batch) ops).list.batches ≤ max_size
run-bounded max_size max_batch ops =
    let h = run-Keeps max_size (start max_size max_batch) ops (start-Keeps max_size max_batch) in
    omega (arith, h.0.0, h.0.1, h.3)
