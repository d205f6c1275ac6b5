-- ===== src/Relay/System/Laws.antt =====
-- What a retry buffer promises to its callers and its backend.
use influxdb_relay.Base.{
  ℕ, ◌≤◌, ◌<◌, true, String, some, List, [], ◌∷◌, ◌++◌, ◌≡◌, false, ◌≢◌, refl, ap, subst, ◌∙◌, ◌⊎◌,
  inl, inr, length, All, arith,
}
use influxdb_relay.Relay.Buffer.{Bytes, Batch, BufferList, Cur, pop, pops, waits, faults, Popped}
use influxdb_relay.Relay.Buffer.Order.{pending, pending-append}
use influxdb_relay.Relay.Buffer.Bounds.{bytes_of, sizes, IsSized, IsValid, PopsTo, pop-PopsTo}
use influxdb_relay.Relay.Buffer.Runs.{Write, writes_of}
use influxdb_relay.Relay.Buffer.Ids.{Among, Carries, Holds}
use influxdb_relay.Relay.Retry.{Duration, Response, is_good}
use influxdb_relay.Relay.System
use influxdb_relay.Relay.System.{
  Runner, rests, sends, resets, releases, Shared, delivered_at, Pc, Turn, Reach,
}
use influxdb_relay.Relay.System.Chain.{hand, carried, chain}
use influxdb_relay.Relay.System.Invariant.{Known}
use influxdb_relay.Relay.System.Preserved.{Reach-Inv}

-- In every reachable state, a request that was woken has the response, not a 5xx, of the batch that it read
-- after the unlock of `add`, which is done. That is the batch that took its write, and has its key and its
-- write in it, unless the read went through the list's head. The batch that took the write is made and not lost,
-- whether it is done, in hand or in the list.
pub Reach-woken :
    {size batch : ℕ} {max_interval : Duration} {s : System.System}
    → Reach size batch max_interval s
    → (i t : ℕ) (w : Write) (c : Cur) (r : Response) → s.pc i ≡ Pc.woken w c t r
    → (b : Batch) × (delivered_at t s.mem.delivered ≡ some (b, r))
      × (is_good (some r) ≡ true)
      × (t ≡ c.taker → Carries w.buf w.query w.auth b)
      × (c.is_head ≡ false → t ≡ c.taker)
      × Holds c.taker w.buf w.query w.auth (chain s.mem)
Reach-woken {s} reach i t w c r e = subst (Known s.mem) e ((Reach-Inv reach).1 i)

-- In every reachable state and for each query and authorization, the accepted writes are, in their order, those
-- of the batches that are done, then those of the batch in hand, then those in the list.
pub Reach-delivers :
    {size batch : ℕ} {max_interval : Duration} {s : System.System}
    → Reach size batch max_interval s
    → (query auth : String)
    → writes_of query auth s.mem.accepted
      ≡ pending query auth (carried s.mem.delivered)
        ++ (pending query auth (hand s.mem.runner) ++ pending query auth s.mem.list.batches)
Reach-delivers {s} reach query auth =
    (Reach-Inv reach).0.delivers query auth
    ∙ pending-append query auth (carried s.mem.delivered) (hand s.mem.runner ++ s.mem.list.batches)
    ∙ ap (λ ws. pending query auth (carried s.mem.delivered) ++ ws)
        (pending-append query auth (hand s.mem.runner) s.mem.list.batches)

length-le-bytes_of : (w : Bytes) (vs : List Bytes) → Among w vs → length w ≤ bytes_of vs
unfolding bytes_of
length-le-bytes_of w [] h = elim h [ ]
length-le-bytes_of w (v ∷ vs) (inl e) = omega (arith, ap (λ (x : Bytes). length x) e)
length-le-bytes_of w (v ∷ vs) (inr h) = omega (arith, length-le-bytes_of w vs h)

Holds-sizes :
    (max_batch t : ℕ) (buf : Bytes) (query auth : String) (bs : List Batch)
    → All (IsSized max_batch) bs
    → Holds t buf query auth bs
    → length buf ≤ sizes bs
unfolding sizes
Holds-sizes max_batch t buf query auth [] z h = elim h [ ]
Holds-sizes max_batch t buf query auth (b ∷ bs) z (inl h) =
    omega (arith, length-le-bytes_of buf b.bufs h.1.1, z.0.0)
Holds-sizes max_batch t buf query auth (b ∷ bs) z (inr h) =
    omega (arith, Holds-sizes max_batch t buf query auth bs z.1 h.1)

-- A number that holds a write is that of a batch which is done, or holds it further on.
pub Holds-done :
    (t : ℕ) (buf : Bytes) (query auth : String) (ds : List (Batch × Response)) (rest : List Batch)
    → Holds t buf query auth (carried ds ++ rest)
    → ((d : Batch × Response) × (delivered_at t ds ≡ some d)) ⊎ Holds t buf query auth rest
unfolding delivered_at
Holds-done t buf query auth [] rest h = inr h
Holds-done t buf query auth ((b, r) ∷ ds) rest (inl h) = inl ((b, r), ground (arith, h.0))
Holds-done t buf query auth ((b, r) ∷ ds) rest (inr h) =
    elim (Holds-done t buf query auth ds rest h.1) [
      | inl d ↦ inl (d.0, ground (arith, h.0, d.1))
      | inr k ↦ inr k
    ]

Popped-cases :
    (l : BufferList) (p : Popped)
    → PopsTo l p
    → l.size ≢ 0
    → (b : Batch) × (r : BufferList) × (p ≡ pops b r)
Popped-cases l waits h ne = absurd (ne h)
Popped-cases l faults h ne = absurd h
Popped-cases l (pops b r) h ne = (b, r, refl)

-- The list has something to pop while it holds a write of some bytes.
pub pops_held :
    (l : BufferList) (t : ℕ) (buf : Bytes) (query auth : String)
    → IsValid l
    → Holds t buf query auth l.batches
    → 0 < length buf
    → (b : Batch) × (r : BufferList) × (pop l ≡ pops b r)
pops_held l t buf query auth v h some_bytes =
    Popped-cases l (pop l) (pop-PopsTo l v)
      (omega (arith, Holds-sizes l.max_batch t buf query auth l.batches v.2 h, v.0))
