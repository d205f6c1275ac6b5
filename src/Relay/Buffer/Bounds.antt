-- ===== src/Relay/Buffer/Bounds.antt =====
-- The sizes that the list and its batches keep, and that `pop` finds a head where it looks for one.
use influxdb_relay.Base.{
  ℕ, suc, ◌≤◌, ◌<◌, false, String, Option, none, some, List, [], ◌∷◌, ◌++◌, ◌≡◌, refl, ap, subst,
  ◌∙◌, ◌⊎◌, inl, inr, ltb, ◌==◌, length, All, arith, Bool-cases, ◌+◌, ◌-◌, ◌≢◌,
}
use influxdb_relay.Relay.Buffer.{
  Bytes, Batch, BufferList, Cur, new_buffer_list, new_batch, place, add, pop, pop_batches, Popped,
  pops, waits, faults,
}
use influxdb_relay.Relay.Buffer.Ways.{Way, place-Way, placed, other, closed, close, takes}

unfoldable pub bytes_of : List Bytes → ℕ
bytes_of [] = 0
bytes_of (w ∷ ws) = length w + bytes_of ws

unfoldable pub sizes : List Batch → ℕ
sizes [] = 0
sizes (b ∷ bs) = b.size + sizes bs

-- A batch knows its size, which is over the bound only if it holds one write.
abbrev pub IsSized : ℕ → Batch → Type 0
IsSized max_batch b = (b.size ≡ bytes_of b.bufs) × ((b.size ≤ max_batch) ⊎ (length b.bufs ≡ 1))

abbrev pub IsValid : BufferList → Type 0
IsValid l = (l.size ≡ sizes l.batches) × (l.size ≤ l.max_size) × All (IsSized l.max_batch) l.batches

bytes_of-snoc : (ws : List Bytes) (w : Bytes) → bytes_of (ws ++ (w ∷ [])) ≡ bytes_of ws + length w
unfolding bytes_of
bytes_of-snoc [] w = omega arith
bytes_of-snoc (v ∷ ws) w = let rest = bytes_of-snoc ws w in omega arith

module _ (max_batch id : ℕ) (buf : Bytes) (query auth : String) where
  sizes-Way :
      (b : Batch) (bs r : List Batch)
      → sizes (placed max_batch id buf query auth bs) ≡ sizes bs + length buf
      → Way max_batch id buf query auth b bs r
      → sizes r ≡ sizes (b ∷ bs) + length buf
  unfolding sizes
  sizes-Way b bs r rest (other e w) = rw w (omega arith)
  sizes-Way b bs r rest (closed e f w) = rw w (omega arith)
  sizes-Way b bs r rest (close e w) = rw w (omega arith)
  sizes-Way b bs r rest (takes e f g w) = rw w (omega arith)

  sizes-placed :
      (bs : List Batch) → sizes (placed max_batch id buf query auth bs) ≡ sizes bs + length buf
  unfolding sizes place new_batch
  sizes-placed [] = omega arith
  sizes-placed (b ∷ bs) =
      sizes-Way b bs _ (sizes-placed bs) (place-Way max_batch id buf query auth b bs)

  IsSized-new : IsSized max_batch (new_batch id buf query auth)
  unfolding new_batch bytes_of
  IsSized-new = (omega arith, inr refl)

  IsSized-grown :
      (b : Batch)
      → IsSized max_batch b
      → ltb max_batch (b.size + length buf) ≡ false
      → IsSized max_batch (record b { size = b.size + length buf; bufs = b.bufs ++ (buf ∷ []) })
  IsSized-grown b h g = (rw (bytes_of-snoc b.bufs buf, h.0) refl, inl (ground arith))

  IsSized-Way :
      (b : Batch) (bs r : List Batch)
      → All (IsSized max_batch) (b ∷ bs)
      → All (IsSized max_batch) (placed max_batch id buf query auth bs)
      → Way max_batch id buf query auth b bs r
      → All (IsSized max_batch) r
  IsSized-Way b bs r h rest (other e w) = rw w (h.0, rest)
  IsSized-Way b bs r h rest (closed e f w) = rw w (h.0, rest)
  IsSized-Way b bs r h rest (close e w) = rw w (h.0, rest)
  IsSized-Way b bs r h rest (takes e f g w) = rw w (IsSized-grown b h.0 g, h.1)

  IsSized-placed :
      (bs : List Batch)
      → All (IsSized max_batch) bs
      → All (IsSized max_batch) (placed max_batch id buf query auth bs)
  unfolding place
  IsSized-placed [] h = (IsSized-new, tt)
  IsSized-placed (b ∷ bs) h =
      IsSized-Way b bs _ h (IsSized-placed bs h.1) (place-Way max_batch id buf query auth b bs)

-- The list that `add` returns where there is room.
abbrev pub added : BufferList → Bytes → String → String → BufferList
added l buf query auth = record l {
  batches = placed l.max_batch l.next_id buf query auth l.batches;
  size = l.size + length buf;
  next_id = suc l.next_id;
}

added-IsValid :
    (l : BufferList) (buf : Bytes) (query auth : String)
    → IsValid l
    → l.size + length buf ≤ l.max_size
    → IsValid (added l buf query auth)
added-IsValid l buf query auth h room = (
  rw (sizes-placed l.max_batch l.next_id buf query auth l.batches, h.0) refl,
  room,
  IsSized-placed l.max_batch l.next_id buf query auth l.batches h.2,
)

-- The two ways of `add`.
pub data AddWay (l : BufferList) (buf : Bytes) (query auth : String)
    : Option (BufferList × Cur) → Type 0 where
  refuses : l.max_size < l.size + length buf → AddWay l buf query auth none
  accepts :
      (cur : Cur)
      → l.size + length buf ≤ l.max_size
      → AddWay l buf query auth (some (added l buf query auth, cur))

pub add-AddWay :
    (l : BufferList) (buf : Bytes) (query auth : String)
    → AddWay l buf query auth (add l buf query auth)
unfolding add
add-AddWay l buf query auth = elim (Bool-cases (ltb l.max_size (l.size + length buf))) [
  | inl e ↦ rw e (refuses (ground arith))
  | inr e ↦ rw e (accepts _ (ground arith))
]

-- What `add` may come to: a refusal for want of room, or a valid list that is as much longer as the write.
abbrev pub AddsTo : BufferList → Bytes → Option (BufferList × Cur) → Type 0
AddsTo l buf none = l.max_size < l.size + length buf
AddsTo l buf (some (r, cur)) =
    (r.size ≡ l.size + length buf)
    × (r.max_size ≡ l.max_size)
    × (r.max_batch ≡ l.max_batch)
    × IsValid r

AddWay-AddsTo :
    (l : BufferList) (buf : Bytes) (query auth : String) (o : Option (BufferList × Cur))
    → IsValid l
    → AddWay l buf query auth o
    → AddsTo l buf o
AddWay-AddsTo l buf query auth o h (refuses over) = over
AddWay-AddsTo l buf query auth o h (accepts cur room) =
    (refl, refl, refl, added-IsValid l buf query auth h room)

-- In a valid list, `add` either refuses a write, which then does not fit into the maximum size, or
-- returns a valid list with the same limits whose size has grown by the write's length.
pub add-AddsTo :
    (l : BufferList) (buf : Bytes) (query auth : String)
    → IsValid l
    → AddsTo l buf (add l buf query auth)
add-AddsTo l buf query auth h = AddWay-AddsTo l buf query auth _ h (add-AddWay l buf query auth)

popped-IsValid :
    (l : BufferList) (b : Batch) (bs : List Batch)
    → l.batches ≡ b ∷ bs
    → IsValid l
    → IsValid (record l { batches = bs; size = l.size - b.size })
      × (l.size ≡ b.size + (l.size - b.size))
      × IsSized l.max_batch b
unfolding sizes
popped-IsValid l b bs e h =
    let split : l.size ≡ b.size + sizes bs = h.0 ∙ ap sizes e in
    let sized : All (IsSized l.max_batch) (b ∷ bs) = subst (All (IsSized l.max_batch)) e h.2 in
    let room : l.size ≤ l.max_size = h.1 in
    ((omega arith, omega arith, sized.1), omega arith, sized.0)

-- What `pop` may come to in a list: it waits where no bytes are buffered, and else takes the first batch.
abbrev pub PopsTo : BufferList → Popped → Type 0
PopsTo l waits = l.size ≡ 0
PopsTo l faults = ⊥
PopsTo l (pops b r) =
    (l.batches ≡ b ∷ r.batches)
    × (l.size ≡ b.size + r.size)
    × (r.max_size ≡ l.max_size)
    × IsSized l.max_batch b
    × IsValid r

pop_batches-PopsTo :
    (l : BufferList) (bs : List Batch)
    → l.batches ≡ bs
    → IsValid l
    → l.size ≢ 0
    → PopsTo l (pop_batches l bs)
unfolding pop_batches sizes
pop_batches-PopsTo l [] e h ne = ne (h.0 ∙ ap sizes e)
pop_batches-PopsTo l (b ∷ bs) e h ne = let p = popped-IsValid l b bs e h in (e, p.1, refl, p.2, p.0)

-- In a valid list, `pop` never reads through a nil head: it waits, and then the size is 0, or it takes the
-- first batch and leaves the rest as a valid list whose size is less by the batch's. The batch's size is
-- the number of its bytes, and over the batch limit only if it is a single write.
pub pop-PopsTo : (l : BufferList) → IsValid l → PopsTo l (pop l)
unfolding pop
pop-PopsTo l h = elim (Bool-cases (l.size == 0)) [
  | inl e ↦ rw e (ground arith)
  | inr e ↦ rw e (pop_batches-PopsTo l l.batches refl h (ground arith))
]

pub new-IsValid : (max_size max_batch : ℕ) → IsValid (new_buffer_list max_size max_batch)
unfolding new_buffer_list sizes
new-IsValid max_size max_batch = (refl, omega arith, tt)

sizes-empty :
    (max_batch : ℕ) (bs : List Batch)
    → All (IsSized max_batch) bs
    → All (λ b. bytes_of b.bufs ≡ 0) bs
    → sizes bs ≡ 0
unfolding sizes
sizes-empty max_batch [] h z = refl
sizes-empty max_batch (b ∷ bs) h z = omega (arith, sizes-empty max_batch bs h.1 z.1, h.0.0, z.0)

-- In a valid list whose batches hold only writes of no bytes, `pop` waits, however many batches there are.
pub pop-empty_writes :
    (l : BufferList) → IsValid l → All (λ b. bytes_of b.bufs ≡ 0) l.batches → pop l ≡ waits
unfolding pop
pop-empty_writes l h z = rw (h.0, sizes-empty l.max_batch l.batches h.2 z) refl
