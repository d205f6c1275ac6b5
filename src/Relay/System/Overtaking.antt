-- ===== src/Relay/System/Overtaking.antt =====
-- The flag goes off when one batch is done, whatever the list still holds.
use influxdb_relay.Base.{ℕ, true, false, some, ◌≡◌, refl, subst, sym, arith}
use influxdb_relay.Relay.Buffer.{Batch}
use influxdb_relay.Relay.Buffer.Runs.{Write}
use influxdb_relay.Relay.Retry.{Duration, Response, is_good}
use influxdb_relay.Relay.System
use influxdb_relay.Relay.System.{sends, Shared, Pc, Move, Turn, Step, Steps, update}

update_again : (pc : ℕ → Pc) (k : ℕ) (p q : Pc) → update (update pc k p) k q k ≡ q
update_again pc k p q = ground arith

-- While `run` posts a batch, with whatever writes still in the list, and a new request is to come: if the
-- poster gives a good reply to the batch and then to the request, the request is answered at once, and
-- the writes in the list, which were accepted before, are still there.
pub Steps-overtakes :
    (max_interval : Duration) (s : System.System) (b : Batch) (interval : Duration) (k : ℕ)
    (w : Write) (r : Response)
    → s.mem.runner ≡ sends b interval
    → s.pc k ≡ Pc.idle
    → is_good (some r) ≡ true
    → (u : System.System) × Steps max_interval s u
      × (u.pc k ≡ Pc.direct w r)
      × (u.mem.list ≡ s.mem.list)
Steps-overtakes max_interval s b interval k w r e new good =
    let off : Shared = record s.mem { buffering = false; runner = System.releases b r } in
    let loaded : Move off (s.pc k) off (Pc.posting w) =
      subst (λ p. Move off p off (Pc.posting w)) (sym new) (Move.load_off w refl) in
    let own : update s.pc k (Pc.posting w) k ≡ Pc.posting w = ground arith in
    let sent : Move off (update s.pc k (Pc.posting w) k) off (Pc.direct w r) =
      subst (λ p. Move off p off (Pc.direct w r)) (sym own) (Move.answered good) in
    (
      _,
      Steps.next
          (Steps.next
            (Steps.next (Steps.next Steps.here (Step.runs (Turn.answers e good)))
              (Step.runs (Turn.reset refl)))
            (Step.request k loaded))
          (Step.request k sent),
      update_again s.pc k (Pc.posting w) (Pc.direct w r),
      refl,
    )
