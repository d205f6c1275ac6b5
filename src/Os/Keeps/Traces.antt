-- ===== src/Os/Keeps/Traces.antt =====
-- Predicates of the whole trace that a piece of the script preserves however it ends.
use influxdb_relay.Base.{Bool, true, false, if◌then◌else◌, List, [], ◌∷◌, ◌≡◌, refl}
use influxdb_relay.Os.{
  Event, Trace, M, Outcome, returned, raised, exited, Exception, pure, raise, ◌>>=◌, then_with,
  for_each,
}
use influxdb_relay.Os.Keeps.{Adds, same, more, Emits}
use influxdb_relay.Os.Keeps.Outcomes.{Returns}

pub record Preserves {A : Type 0} (J : Trace → Type 0) (m : M A) : Type 0 where
  pub at : (t : Trace) → J t → J (m t).1

-- Events that the predicate allows at any time.
pub Adds-trace :
    (J : Trace → Type 0) (Q : Event → Type 0) {t u : Trace}
    → ((e : Event) (v : Trace) → Q e → J v → J (e ∷ v))
    → Adds Q t u
    → J t
    → J u
Adds-trace J Q h same j = j
Adds-trace J Q h (more {u} e q a) j = h e u q (Adds-trace J Q h a j)

pub Preserves-Emits :
    {A : Type 0} (J : Trace → Type 0) (Q : Event → Type 0) (m : M A)
    → ((e : Event) (v : Trace) → Q e → J v → J (e ∷ v))
    → Emits Q m
    → Preserves J m
Preserves-Emits J Q m h k = record { at = λ t j. Adds-trace J Q h (k.at t) j }

module _ {A B : Type 0} (J : Trace → Type 0) where
  then_with-trace :
      (o : Outcome A) (t : Trace) (f : A → M B)
      → J t
      → ((a : A) → o ≡ returned a → Preserves J (f a))
      → J (then_with o t f).1
  then_with-trace (returned a) t f j h = (h a refl).at t j
  then_with-trace (raised e) t f j h = j
  then_with-trace (exited n) t f j h = j

  pub Preserves-bind_of :
      (P : A → Type 0) (m : M A) (f : A → M B)
      → Preserves J m
      → Returns P m
      → ((a : A) → P a → Preserves J (f a))
      → Preserves J (m >>= f)
  unfolding ◌>>=◌
  Preserves-bind_of P m f hm hp hf = record {
    at = λ t j. then_with-trace (m t).0 (m t).1 f (hm.at t j) λ a e. hf a (hp.at t a e);
  }

  pub Preserves-bind :
      (m : M A) (f : A → M B)
      → Preserves J m
      → ((a : A) → Preserves J (f a))
      → Preserves J (m >>= f)
  Preserves-bind m f hm hf =
      Preserves-bind_of (λ a. Unit) m f hm (record { at = λ t a e. tt }) λ a u. hf a

module _ {A : Type 0} (J : Trace → Type 0) where
  pub Preserves-pure : (a : A) → Preserves J (pure a)
  Preserves-pure a = record { at = λ t j. j }

  pub Preserves-raise : (e : Exception) → Preserves J (raise {A = A} e)
  unfolding raise
  Preserves-raise e = record { at = λ t j. j }

  pub Preserves-if :
      (b : Bool) (m n : M A) → Preserves J m → Preserves J n → Preserves J (if b then m else n)
  Preserves-if true m n hm hn = hm
  Preserves-if false m n hm hn = hn

  pub Preserves-for_each :
      (xs : List A) (f : A → M (Unit {0}))
      → ((a : A) → Preserves J (f a))
      → Preserves J (for_each xs f)
  unfolding for_each
  Preserves-for_each [] f h = record { at = λ t j. j }
  Preserves-for_each (x ∷ xs) f h =
      Preserves-bind J (f x) (λ _. for_each xs f) (h x) λ _. Preserves-for_each xs f h
