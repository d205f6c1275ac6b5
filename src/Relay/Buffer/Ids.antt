-- ===== src/Relay/Buffer/Ids.antt =====
-- The numbers of the batches of a list: they grow, so that a number names one batch.
use influxdb_relay.Base.{
  ℕ, suc, ◌+◌, ◌≤◌, Bool, true, not, ◌||◌, String, none, ◌<◌, some, List, [], ◌∷◌, ◌++◌, ◌≡◌, ◌≢◌,
  refl, ◌⊎◌, inl, inr, ltb, ◌==◌, length, arith, Bool-cases,
}
use influxdb_relay.Relay.Buffer.{
  Bytes, Batch, BufferList, Cur, is_first, new_batch, has_key, place, add, pop_batches, pop, pops,
}
use influxdb_relay.Relay.Buffer.Ways.{placed}
use influxdb_relay.Relay.Buffer.Order.{key_refl}
use influxdb_relay.Relay.Buffer.Bounds.{added}

-- The numbers of the batches grow from a first bound on and stay below the second.
abbrev pub Ascends : ℕ → ℕ → List Batch → Type 0
Ascends lo hi [] = lo ≤ hi
Ascends lo hi (b ∷ bs) = (lo ≤ b.id) × Ascends (suc b.id) hi bs

abbrev pub Among : Bytes → List Bytes → Type 0
Among w [] = ⊥
Among w (v ∷ vs) = (v ≡ w) ⊎ Among w vs

-- The batch is of the write's key and has the write in it.
abbrev pub Carries : Bytes → String → String → Batch → Type 0
Carries buf query auth b = (has_key query auth b ≡ true) × Among buf b.bufs

-- The first batch of a number carries a write.
abbrev pub Holds : ℕ → Bytes → String → String → List Batch → Type 0
Holds t buf query auth [] = ⊥
Holds t buf query auth (b ∷ bs) =
    ((b.id ≡ t) × Carries buf query auth b) ⊎ ((b.id ≢ t) × Holds t buf query auth bs)

Among-append : (w : Bytes) (vs us : List Bytes) → Among w vs → Among w (vs ++ us)
Among-append w [] us h = elim h [ ]
Among-append w (v ∷ vs) us (inl e) = inl e
Among-append w (v ∷ vs) us (inr h) = inr (Among-append w vs us h)

Among-snoc : (w : Bytes) (vs : List Bytes) → Among w (vs ++ (w ∷ []))
Among-snoc w [] = inl refl
Among-snoc w (v ∷ vs) = inr (Among-snoc w vs)

Ascends-weaken : (lo lo' hi : ℕ) (bs : List Batch) → lo' ≤ lo → Ascends lo hi bs → Ascends lo' hi bs
Ascends-weaken lo lo' hi [] le h = omega arith
Ascends-weaken lo lo' hi (b ∷ bs) le h = (omega (arith, h.0), h.1)

pub Ascends-le : (lo hi : ℕ) (bs : List Batch) → Ascends lo hi bs → lo ≤ hi
Ascends-le lo hi [] h = h
Ascends-le lo hi (b ∷ bs) h = omega (arith, h.0, Ascends-le (suc b.id) hi bs h.1)

pub Ascends-append :
    (lo mid hi : ℕ) (bs cs : List Batch)
    → Ascends lo mid bs
    → Ascends mid hi cs
    → Ascends lo hi (bs ++ cs)
Ascends-append lo mid hi [] cs h k = Ascends-weaken mid lo hi cs h k
Ascends-append lo mid hi (b ∷ bs) cs h k = (h.0, Ascends-append (suc b.id) mid hi bs cs h.1 k)

pub Ascends-split :
    (lo hi : ℕ) (bs cs : List Batch)
    → Ascends lo hi (bs ++ cs)
    → (mid : ℕ) × Ascends lo mid bs × Ascends mid hi cs
Ascends-split lo hi [] cs h = (lo, omega arith, h)
Ascends-split lo hi (b ∷ bs) cs h =
    let (mid, k, l) = Ascends-split (suc b.id) hi bs cs h.1 in (mid, (h.0, k), l)

-- A number above all of a list names none of its batches.
pub Holds-past :
    (lo mid t : ℕ) (buf : Bytes) (query auth : String) (bs cs : List Batch)
    → Ascends lo mid bs
    → mid ≤ t
    → Holds t buf query auth cs
    → Holds t buf query auth (bs ++ cs)
Holds-past lo mid t buf query auth [] cs h le k = k
Holds-past lo mid t buf query auth (b ∷ bs) cs h le k = inr (
  omega (arith, Ascends-le (suc b.id) mid bs h.1),
  Holds-past (suc b.id) mid t buf query auth bs cs h.1 le k,
)

pub Holds-suffix :
    (t : ℕ) (buf : Bytes) (query auth : String) (bs cs ds : List Batch)
    → (Holds t buf query auth cs → Holds t buf query auth ds)
    → Holds t buf query auth (bs ++ cs)
    → Holds t buf query auth (bs ++ ds)
Holds-suffix t buf query auth [] cs ds f h = f h
Holds-suffix t buf query auth (b ∷ bs) cs ds f (inl h) = inl h
Holds-suffix t buf query auth (b ∷ bs) cs ds f (inr h) =
    inr (h.0, Holds-suffix t buf query auth bs cs ds f h.1)

module _ (max_batch id : ℕ) (buf : Bytes) (query auth : String) where
  abbrev pub taker : List Batch → ℕ
  taker bs = (place max_batch id buf query auth bs).1

  -- What the loop does at a batch: it goes on past it, which leaves its number, key and writes, or the
  -- batch takes the write.
  data Visit (b : Batch) (bs : List Batch) (r : List Batch × ℕ) : Type 0 where
    passes :
        (full : Bool)
        → r ≡ (record b { full = full } ∷ placed max_batch id buf query auth bs, taker bs)
        → Visit b bs r
    takes :
        has_key query auth b ≡ true
        → r ≡ (record b { size = b.size + length buf; bufs = b.bufs ++ (buf ∷ []) } ∷ bs, b.id)
        → Visit b bs r

  place-Visit :
      (b : Batch) (bs : List Batch) → Visit b bs (place max_batch id buf query auth (b ∷ bs))
  unfolding place
  place-Visit b bs = elim (Bool-cases (not (has_key query auth b) || b.full)) [
    | inl e ↦ passes b.full (rw e refl)
    | inr e ↦ elim (Bool-cases (ltb max_batch (b.size + length buf))) [
      | inl g ↦ passes true (rw (e, g) refl)
      | inr g ↦ takes (ground arith) (rw (e, g) refl)
    ]
  ]

  Ascends-Visit :
      (lo hi : ℕ) (b : Batch) (bs : List Batch) (r : List Batch × ℕ)
      → Ascends lo hi (b ∷ bs)
      → Ascends (suc b.id) (suc hi) (placed max_batch id buf query auth bs)
      → Ascends (suc b.id) (suc hi) bs
      → Visit b bs r
      → Ascends lo (suc hi) r.0
  Ascends-Visit lo hi b bs r h rest same (passes full e) = rw e (h.0, rest)
  Ascends-Visit lo hi b bs r h rest same (takes k e) = rw e (h.0, same)

  Ascends-weaken_hi : (lo hi : ℕ) (bs : List Batch) → Ascends lo hi bs → Ascends lo (suc hi) bs
  Ascends-weaken_hi lo hi [] h = omega arith
  Ascends-weaken_hi lo hi (b ∷ bs) h = (h.0, Ascends-weaken_hi (suc b.id) hi bs h.1)

  pub placed-Ascends :
      (lo : ℕ) (bs : List Batch)
      → Ascends lo id bs
      → Ascends lo (suc id) (placed max_batch id buf query auth bs)
  unfolding place new_batch
  placed-Ascends lo [] h = (h, omega arith)
  placed-Ascends lo (b ∷ bs) h =
      Ascends-Visit lo id b bs _ h (placed-Ascends (suc b.id) bs h.1)
        (Ascends-weaken_hi (suc b.id) id bs h.1) (place-Visit b bs)

  -- The write is in the batch that the loop names.
  Holds-Visit :
      (b : Batch) (bs : List Batch) (r : List Batch × ℕ)
      → (suc b.id ≤ taker bs)
        × Holds (taker bs) buf query auth (placed max_batch id buf query auth bs)
      → Visit b bs r
      → (b.id ≤ r.1) × Holds r.1 buf query auth r.0
  Holds-Visit b bs r h (passes full e) = rw e (omega (arith, h.0), inr (omega (arith, h.0), h.1))
  Holds-Visit b bs r h (takes k e) = rw e (omega arith, inl (refl, (k, Among-snoc buf b.bufs)))

  pub placed-Holds :
      (lo : ℕ) (bs : List Batch)
      → Ascends lo id bs
      → (lo ≤ taker bs) × Holds (taker bs) buf query auth (placed max_batch id buf query auth bs)
  unfolding place new_batch
  placed-Holds lo [] h = (h, inl (refl, (key_refl query auth, inl refl)))
  placed-Holds lo (b ∷ bs) h =
      let (le, k) = Holds-Visit b bs _ (placed-Holds (suc b.id) bs h.1) (place-Visit b bs) in
      (omega (arith, h.0, le), k)

  -- A write stays in the batch that a number names.
  still-Visit :
      (t : ℕ) (w : Bytes) (q a : String) (b : Batch) (bs : List Batch) (r : List Batch × ℕ)
      → Holds t w q a (b ∷ bs)
      → (Holds t w q a bs → Holds t w q a (placed max_batch id buf query auth bs))
      → Visit b bs r
      → Holds t w q a r.0
  still-Visit t w q a b bs r (inl h) rest (passes full e) = rw e (inl h)
  still-Visit t w q a b bs r (inr h) rest (passes full e) = rw e (inr (h.0, rest h.1))
  still-Visit t w q a b bs r (inl h) rest (takes k e) =
      rw e (inl (h.0, (h.1.0, Among-append w b.bufs (buf ∷ []) h.1.1)))
  still-Visit t w q a b bs r (inr h) rest (takes k e) = rw e (inr h)

  pub placed-still_Holds :
      (t : ℕ) (w : Bytes) (q a : String) (bs : List Batch)
      → Holds t w q a bs
      → Holds t w q a (placed max_batch id buf query auth bs)
  placed-still_Holds t w q a [] h = elim h [ ]
  placed-still_Holds t w q a (b ∷ bs) h =
      still-Visit t w q a b bs _ h (placed-still_Holds t w q a bs) (place-Visit b bs)

-- Where `add` leaves `cur` in a list that takes the write.
abbrev pub cur_of : BufferList → Bytes → String → String → Cur
cur_of l buf query auth =
    let t = taker l.max_batch l.next_id buf query auth l.batches in
    record { taker = t; is_head = is_first (added l buf query auth).batches t }

-- Where `add` succeeds, its list and its `cur` are those of the loop.
pub add-added :
    (l r : BufferList) (c : Cur) (buf : Bytes) (query auth : String)
    → add l buf query auth ≡ some (r, c)
    → (r ≡ added l buf query auth) × (c ≡ cur_of l buf query auth)
unfolding add
add-added l r c buf query auth h = elim (Bool-cases (ltb l.max_size (l.size + length buf))) [
  | inl e ↦ ground arith
  | inr e ↦ ground arith
]

pub add-cases :
    (l : BufferList) (buf : Bytes) (query auth : String)
    → ((add l buf query auth ≡ none) × (l.max_size < l.size + length buf))
      ⊎ (add l buf query auth ≡ some (added l buf query auth, cur_of l buf query auth))
unfolding add
add-cases l buf query auth = elim (Bool-cases (ltb l.max_size (l.size + length buf))) [
  | inl e ↦ inl (rw e refl, ground arith)
  | inr e ↦ inr (rw e refl)
]

pop_batches-next_id :
    (l r : BufferList) (b : Batch) (bs : List Batch)
    → pop_batches l bs ≡ pops b r
    → r.next_id ≡ l.next_id
unfolding pop_batches
pop_batches-next_id l r b [] e = ground arith
pop_batches-next_id l r b (c ∷ bs) e = ground arith

pub pop-next_id : (l r : BufferList) (b : Batch) → pop l ≡ pops b r → r.next_id ≡ l.next_id
unfolding pop
pop-next_id l r b e = elim (Bool-cases (l.size == 0)) [
  | inl z ↦ ground arith
  | inr z ↦ pop_batches-next_id l r b l.batches (ground arith)
]
