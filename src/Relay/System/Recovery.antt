-- ===== src/Relay/System/Recovery.antt =====
-- When the poster answers again, every request that waits can be served.
use influxdb_relay.Base.{
  ℕ, ◌<◌, true, some, List, [], ◌∷◌, ◌++◌, false, ◌≡◌, refl, sym, subst, ◌∙◌, ◌⊎◌, inl, inr, length,
  arith,
}
use influxdb_relay.Relay.Buffer.{Batch, BufferList, Cur, pop, pops}
use influxdb_relay.Relay.Buffer.Bounds.{PopsTo, pop-PopsTo}
use influxdb_relay.Relay.Buffer.Runs.{Write}
use influxdb_relay.Relay.Buffer.Ids.{Holds}
use influxdb_relay.Relay.Retry.{Duration, Response, is_good}
use influxdb_relay.Relay.System
use influxdb_relay.Relay.System.{
  Runner, rests, sends, resets, releases, Shared, delivered_at, Pc, Move, Turn, Step, Reach, Steps,
  Reach-Steps, update, retry_initial,
}
use influxdb_relay.Relay.System.Chain.{hand, chain}
use influxdb_relay.Relay.System.Invariant.{Known}
use influxdb_relay.Relay.System.Preserved.{Reach-Inv}
use influxdb_relay.Relay.System.Laws.{pops_held, Holds-done}

-- 204
abbrev accepted_reply : Response
accepted_reply = record { content_type = ""; content_encoding = ""; status_code = 204; body = [] }

accepted_reply-good : is_good (some accepted_reply) ≡ true
unfolding is_good
accepted_reply-good = refl

empty_first : (b : Batch) (bs : List Batch) → b ∷ bs ≡ [] → ⊥
empty_first b bs e = cc

tails_eq : (b c : Batch) (bs cs : List Batch) → b ∷ bs ≡ c ∷ cs → bs ≡ cs
tails_eq b c bs cs e = cc

-- A state in which the request is served, and the steps to it.
abbrev pub Served : Duration → System.System → ℕ → ℕ → Write → Cur → Type 0
Served max_interval s i t w c =
    (u : System.System) × Steps max_interval s u × (r : Response) × (u.pc i ≡ Pc.woken w c t r)

module _ {size batch : ℕ} {max_interval : Duration} {from : System.System}
    (reached : Reach size batch max_interval from) (i t : ℕ) (w : Write) (c : Cur)
    (own : t ≡ c.taker) (some_bytes : 0 < length w.buf) where
  update_own : (pc : ℕ → Pc) (p : Pc) → update pc i p i ≡ p
  update_own pc p = ground arith

  wakes :
      (s : System.System) (d : Batch × Response)
      → Steps max_interval from s
      → s.pc i ≡ Pc.waiting w c t
      → delivered_at t s.mem.delivered ≡ some d
      → Served max_interval from i t w c
  wakes s (b, r) steps e found = (
    _,
    Steps.next steps (
        Step.request i
          (subst (λ p. Move s.mem p s.mem (Pc.woken w c t r)) (sym e) (Move.wake found))),
    r,
    update_own s.pc (Pc.woken w c t r),
  )

  -- The batch in hand is done after three steps, if the reply is good.
  abbrev finished : System.System → Batch → System.System
  finished s b = record {
    mem = record s.mem {
      buffering = false;
      runner = rests;
      delivered = s.mem.delivered ++ ((b, accepted_reply) ∷ []);
    };
    pc = s.pc;
  }

  finishes :
      (s : System.System) (b : Batch) (interval : Duration)
      → Steps max_interval from s
      → s.mem.runner ≡ sends b interval
      → Steps max_interval from (finished s b)
  finishes s b interval steps e =
      Steps.next
        (Steps.next (Steps.next steps (Step.runs (Turn.answers e accepted_reply-good)))
          (Step.runs (Turn.reset refl)))
        (Step.runs (Turn.release refl))

  abbrev sent : System.System → BufferList → Batch → System.System
  sent s l b = record { mem = record s.mem { list = l; runner = sends b retry_initial }; pc = s.pc }

  -- The request's batch is done, or `run` can take a batch off the list.
  pops_next :
      (s : System.System)
      → Steps max_interval from s
      → s.mem.runner ≡ rests
      → s.pc i ≡ Pc.waiting w c t
      → ((d : Batch × Response) × (delivered_at t s.mem.delivered ≡ some d))
        ⊎ ((b : Batch) × (l : BufferList) × (pop s.mem.list ≡ pops b l)
            × (s.mem.list.batches ≡ b ∷ l.batches))
  pops_next s steps idle e =
      let inv = Reach-Inv (Reach-Steps reached steps) in
      let held : Holds t w.buf w.query w.auth (chain s.mem) =
        subst (λ x. Holds x w.buf w.query w.auth (chain s.mem)) (sym own)
          (subst (Known s.mem) e (inv.1 i)).0 in
      elim (Holds-done t w.buf w.query w.auth s.mem.delivered
        (hand s.mem.runner ++ s.mem.list.batches) held) [
          | inl d ↦ inl d
          | inr k ↦
              let listed : Holds t w.buf w.query w.auth s.mem.list.batches =
                subst (λ r. Holds t w.buf w.query w.auth (hand r ++ s.mem.list.batches)) idle k in
              let (b, l, q) =
                pops_held s.mem.list t w.buf w.query w.auth inv.0.valid listed some_bytes in
              let p : PopsTo s.mem.list (pops b l) =
                subst (PopsTo s.mem.list) q (pop-PopsTo s.mem.list inv.0.valid) in
              inr (b, l, q, p.0)
        ]

  serves_list :
      (bs : List Batch) (s : System.System)
      → Steps max_interval from s
      → s.mem.runner ≡ rests
      → s.pc i ≡ Pc.waiting w c t
      → s.mem.list.batches ≡ bs
      → Served max_interval from i t w c
  serves_list [] s steps idle e listed = elim (pops_next s steps idle e) [
    | inl d ↦ wakes s d.0 steps e d.1
    | inr n ↦ absurd (empty_first n.0 n.1.batches (sym n.3 ∙ listed))
  ]
  serves_list (d ∷ bs) s steps idle e listed = elim (pops_next s steps idle e) [
    | inl d ↦ wakes s d.0 steps e d.1
    | inr n ↦
        serves_list bs (finished (sent s n.1 n.0) n.0)
          (finishes (sent s n.1 n.0) n.0 retry_initial
            (Steps.next steps (Step.runs (Turn.take idle n.2))) refl)
          refl e (tails_eq n.0 d n.1.batches bs (sym n.3 ∙ listed))
  ]

  serves :
      (s : System.System) (runner : Runner)
      → Steps max_interval from s
      → s.mem.runner ≡ runner
      → s.pc i ≡ Pc.waiting w c t
      → Served max_interval from i t w c
  serves s rests steps r e = serves_list s.mem.list.batches s steps r e refl
  serves s (sends b interval) steps r e =
      serves_list s.mem.list.batches (finished s b) (finishes s b interval steps r) refl e refl
  serves s (resets b resp) steps r e =
      serves_list s.mem.list.batches _
        (Steps.next (Steps.next steps (Step.runs (Turn.reset r))) (Step.runs (Turn.release refl)))
        refl e refl
  serves s (releases b resp) steps r e =
      serves_list s.mem.list.batches _ (Steps.next steps (Step.runs (Turn.release r))) refl e refl

-- From every reachable state in which a request waits for the batch that took its write, of some bytes,
-- there are steps to a state in which it is woken with a response.
pub Reach-can_wake :
    {size batch : ℕ} {max_interval : Duration} {s : System.System}
    → Reach size batch max_interval s
    → (i t : ℕ) (w : Write) (c : Cur) → s.pc i ≡ Pc.waiting w c t
    → t ≡ c.taker
    → 0 < length w.buf
    → Served max_interval s i t w c
Reach-can_wake {s} reach i t w c e own some_bytes =
    serves reach i t w c own some_bytes s s.mem.runner Steps.here refl e
