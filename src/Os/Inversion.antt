-- ===== src/Os/Inversion.antt =====
-- What a chain of calls that returned has gone through.
use influxdb_relay.Base.{◌≡◌, refl, ap}
use influxdb_relay.Os.{Trace, M, Outcome, returned, raised, exited, ◌>>=◌, then_with}

module _ {A B : Type 0} where
  returned_of :
      (o : Outcome A) (t : Trace) (f : A → M B) {b : B}
      → (then_with o t f).0 ≡ returned b
      → (a : A) × (o ≡ returned a)
  returned_of (returned a) t f h = (a, refl)
  returned_of (raised e) t f h = cc
  returned_of (exited n) t f h = cc

  -- If `m >>= f` returned then so did `m`, and the rest is the run of `f` from there.
  pub >>=-returned :
      (m : M A) (f : A → M B) (t : Trace) {b : B}
      → ((m >>= f) t).0 ≡ returned b
      → (a : A) × ((m t).0 ≡ returned a) × ((m >>= f) t ≡ f a (m t).1)
  unfolding ◌>>=◌
  >>=-returned m f t h =
      let (a, e) = returned_of (m t).0 (m t).1 f h in
      (a, e, ap (λ (o : Outcome A). then_with o (m t).1 f) e)

  -- Where `m` returns, the rest runs from there.
  pub >>=-of_returned :
      (m : M A) (f : A → M B) (t : Trace) (a : A) → (m t).0 ≡ returned a → (m >>= f) t ≡ f a (m t).1
  unfolding ◌>>=◌
  >>=-of_returned m f t a h = ap (λ (o : Outcome A). then_with o (m t).1 f) h
