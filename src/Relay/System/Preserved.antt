-- ===== src/Relay/System/Preserved.antt =====
-- Each step of a retry buffer keeps the invariant, so that it holds in every reachable state.
use influxdb_relay.Base.{ℕ, refl, inl, inr, ◌==◌, arith, Bool-cases}
use influxdb_relay.Relay.Buffer.{new_buffer_list}
use influxdb_relay.Relay.Buffer.Order.{pending}
use influxdb_relay.Relay.Buffer.Bounds.{new-IsValid}
use influxdb_relay.Relay.Buffer.Runs.{writes_of}
use influxdb_relay.Relay.Retry.{Duration}
use influxdb_relay.Relay.System
use influxdb_relay.Relay.System.{
  Runner, rests, sends, resets, releases, Shared, delivered_at, Pc, Move, Turn, Step, Reach, update,
  init,
}
use influxdb_relay.Relay.System.Invariant.{Known, Inv, Known-Extends}
use influxdb_relay.Relay.System.Moves.{Good, Move-Good}
use influxdb_relay.Relay.System.Turns.{IsMoved-Turned, Turn-IsMoved}

-- What is known after a move of one request.
Known-update :
    (m n : Shared) (pc : ℕ → Pc) (i : ℕ) (p : Pc)
    → Good m n p
    → ((j : ℕ) → Known m (pc j))
    → (j : ℕ) → Known n (update pc i p j)
Known-update m n pc i p g k j = elim (Bool-cases (i == j)) [
  | inl e ↦ rw e g.known
  | inr e ↦ rw e (Known-Extends m n (pc j) g.extends (k j))
]

Step-Inv :
    {max_interval : Duration} {s t : System.System}
    → Step max_interval s t
    → Inv s.mem s.pc
    → Inv t.mem t.pc
Step-Inv {s} (Step.request i {m} {p} mv) inv =
    let g = Move-Good mv inv.0 (inv.1 i) in (g.sound, Known-update s.mem m s.pc i p g inv.1)
Step-Inv {s} (Step.runs {m} turn) inv =
    let t = IsMoved-Turned s.mem m inv.0 (Turn-IsMoved turn inv.0) in
    (t.sound, λ i. Known-Extends s.mem m (s.pc i) t.extends (inv.1 i))

init-Inv : (size batch : ℕ) → Inv (init size batch).mem (init size batch).pc
unfolding init new_buffer_list writes_of pending
init-Inv size batch = (
  record {
    valid = new-IsValid size batch;
    one_open = tt;
    ascends = omega arith;
    delivers = λ query auth. refl;
    good = tt;
    in_hand = tt;
  },
  λ i. tt,
)

pub Reach-Inv :
    {size batch : ℕ} {max_interval : Duration} {s : System.System}
    → Reach size batch max_interval s
    → Inv s.mem s.pc
Reach-Inv {size} {batch} Reach.start = init-Inv size batch
Reach-Inv (Reach.later r st) = Step-Inv st (Reach-Inv r)
