-- ===== src/Relay/System/LateRead.antt =====
-- `add` returns `*cur` after the unlock: what a request may wait for when the batch that took its write was
-- the head.
use influxdb_relay.Base.{ℕ, true, List, [], ◌∷◌, ◌++◌, ◌≡◌, ◌≢◌, refl, sym, ap, subst, ◌∙◌, arith}
use influxdb_relay.Relay.Buffer.{Batch, BufferList, Cur, head_of, read_cur, pop, pops}
use influxdb_relay.Relay.Buffer.Bounds.{PopsTo, pop-PopsTo}
use influxdb_relay.Relay.Buffer.Runs.{Write}
use influxdb_relay.Relay.Buffer.Ids.{Ascends, Ascends-split}
use influxdb_relay.Relay.Retry.{Duration}
use influxdb_relay.Relay.System
use influxdb_relay.Relay.System.{
  rests, sends, Shared, Pc, Move, Turn, Step, Steps, Crash, Reach, update, retry_initial,
}
use influxdb_relay.Relay.System.Chain.{hand, carried}
use influxdb_relay.Relay.System.Preserved.{Reach-Inv}

-- With no batch left the process can crash; else the request waits for the first batch left, which is not its own.
abbrev pub ReadsLate : List Batch → System.System → ℕ → Write → Cur → Type 0
ReadsLate [] u i w c = Crash u
ReadsLate (d ∷ ds) u i w c = (u.pc i ≡ Pc.waiting w c d.id) × (d.id ≢ c.taker)

read_cur-at_head : (c : Cur) (bs : List Batch) → c.is_head ≡ true → read_cur c bs ≡ head_of bs
unfolding read_cur
read_cur-at_head c bs h = rw h refl

second-ne :
    (lo hi t : ℕ) (b d : Batch) (ds : List Batch) → Ascends lo hi (b ∷ d ∷ ds) → b.id ≡ t → d.id ≢ t
second-ne lo hi t b d ds h e = omega (arith, h.1.0, e)

module _ (max_interval : Duration) (s : System.System) (i : ℕ) (w : Write) (c : Cur) (b : Batch)
    (l : BufferList) (stands : s.pc i ≡ Pc.unlocked w c) (at_head : c.is_head ≡ true)
    (idle : s.mem.runner ≡ rests) (popped : pop s.mem.list ≡ pops b l) where
  abbrev after_pop : System.System
  after_pop = record { mem = record s.mem { list = l; runner = sends b retry_initial }; pc = s.pc }

  taken : Steps max_interval s after_pop
  taken = Steps.next Steps.here (Step.runs (Turn.take idle popped))

  own_pc : (p : Pc) → update s.pc i p i ≡ p
  own_pc p = ground arith

  reads_left :
      (ds : List Batch)
      → l.batches ≡ ds
      → ((lo : ℕ) × (hi : ℕ) × Ascends lo hi (b ∷ ds))
      → b.id ≡ c.taker
      → (u : System.System) × Steps max_interval s u × ReadsLate ds u i w c
  reads_left [] e ids own = (
    after_pop,
    taken,
    Crash.nil_batch i stands (read_cur-at_head c l.batches at_head ∙ ap head_of e),
  )
  reads_left (d ∷ ds) e (lo, hi, ids) own = (
    _,
    Steps.next taken (
        Step.request i (
          subst (λ p. Move after_pop.mem p after_pop.mem (Pc.waiting w c d.id)) (sym stands)
            (Move.reads (read_cur-at_head c l.batches at_head ∙ ap head_of e)))),
    (own_pc (Pc.waiting w c d.id), second-ne lo hi c.taker b d ds ids own),
  )

-- A request has put its write into the batch at the head of the list and unlocked it, and `run` rests:
-- where `run` pops that batch before the request reads `*cur`, the request reads nil, which
-- crashes the process, if no batch is left; and else it waits for the first batch left, another than the one
-- with its write.
pub Steps-late_read :
    {size batch : ℕ} {max_interval : Duration} {s : System.System}
    → Reach size batch max_interval s
    → (i : ℕ) (w : Write) (c : Cur) (b : Batch) (l : BufferList) → s.pc i ≡ Pc.unlocked w c
    → c.is_head ≡ true
    → s.mem.runner ≡ rests
    → pop s.mem.list ≡ pops b l
    → b.id ≡ c.taker
    → (u : System.System) × Steps max_interval s u × ReadsLate l.batches u i w c
Steps-late_read {max_interval = m} {s} reach i w c b l stands at_head idle popped own =
    let sound = (Reach-Inv reach).0 in
    let p : PopsTo s.mem.list (pops b l) =
      subst (PopsTo s.mem.list) popped (pop-PopsTo s.mem.list sound.valid) in
    let (a, below, above) =
      Ascends-split 0 s.mem.list.next_id (carried s.mem.delivered)
        (hand s.mem.runner ++ s.mem.list.batches) sound.ascends in
    let (lo, held, listed) =
      Ascends-split a s.mem.list.next_id (hand s.mem.runner) s.mem.list.batches above in
    reads_left m s i w c b l stands at_head idle popped l.batches refl
      (lo, s.mem.list.next_id, subst (Ascends lo s.mem.list.next_id) p.0 listed) own
