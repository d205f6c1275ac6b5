-- ===== src/Os/Keeps/Outcomes.antt =====
-- What a piece of the script adds to the trace where it returns one given value, and pieces that never
-- return it.
use influxdb_relay.Base.{
  refl, Bool, true, false, ◌≡◌, ◌≢◌, ◌⊎◌, inl, inr, sym, ap, subst, ◌∙◌, if◌then◌else◌,
}
use influxdb_relay.Os.{Event, Trace, M, Outcome, returned, raised, exited, pure, ◌>>=◌, then_with}
use influxdb_relay.Os.Keeps.{Adds, same, Adds-trans, Emits}
use influxdb_relay.Os.Inversion.{>>=-returned}

pub record EmitsOn {A : Type 0} (Q : Event → Type 0) (v : A) (m : M A) : Type 0 where
  pub at : (t : Trace) → (m t).0 ≡ returned v → Adds Q t (m t).1

pub record Avoids {A : Type 0} (v : A) (m : M A) : Type 0 where
  pub never : (t : Trace) → (m t).0 ≢ returned v

pub Avoids-pure : {A : Type 0} (v a : A) → a ≢ v → Avoids v (pure a)
Avoids-pure v a ne = record { never = λ t e. ne (cc e) }

pub Avoids-bind :
    {A B : Type 0} (v : B) (m : M A) (f : A → M B) → ((a : A) → Avoids v (f a)) → Avoids v (m >>= f)
Avoids-bind v m f h = record {
  never = λ t e.
      let (a, came, runs) = >>=-returned m f t e in
      (h a).never (m t).1 (sym (ap (λ r. r.0) runs) ∙ e);
}

pub EmitsOn-Emits : {A : Type 0} (Q : Event → Type 0) (v : A) (m : M A) → Emits Q m → EmitsOn Q v m
EmitsOn-Emits Q v m h = record { at = λ t e. h.at t }

pub EmitsOn-Avoids :
    {A : Type 0} (Q : Event → Type 0) (v : A) (m : M A) → Avoids v m → EmitsOn Q v m
EmitsOn-Avoids Q v m h = record { at = λ t e. absurd (h.never t e) }

-- For each value that the first part may return, it adds only such events then, and so does the rest; or
-- the rest never returns the value.
pub EmitsOn-bind_by :
    {A B : Type 0} (Q : Event → Type 0) (v : B) (m : M A) (f : A → M B)
    → ((a : A) → (EmitsOn Q a m × EmitsOn Q v (f a)) ⊎ Avoids v (f a))
    → EmitsOn Q v (m >>= f)
EmitsOn-bind_by Q v m f h = record {
  at = λ t e.
      let (a, came, runs) = >>=-returned m f t e in
      let ended : (f a (m t).1).0 ≡ returned v = sym (ap (λ r. r.0) runs) ∙ e in
      elim (h a) [
        | inl both ↦ rw runs (Adds-trans (both.0.at t came) (both.1.at (m t).1 ended))
        | inr avoids ↦ absurd (avoids.never (m t).1 ended)
      ];
}

pub EmitsOn-bind :
    {A B : Type 0} (Q : Event → Type 0) (v : B) (m : M A) (f : A → M B)
    → Emits Q m
    → ((a : A) → EmitsOn Q v (f a))
    → EmitsOn Q v (m >>= f)
EmitsOn-bind Q v m f hm hf = EmitsOn-bind_by Q v m f λ a. inl (EmitsOn-Emits Q a m hm, hf a)

pub EmitsOn-if :
    {A : Type 0} (Q : Event → Type 0) (v : A) (b : Bool) (m n : M A)
    → EmitsOn Q v m
    → EmitsOn Q v n
    → EmitsOn Q v (if b then m else n)
EmitsOn-if Q v true m n hm hn = hm
EmitsOn-if Q v false m n hm hn = hn

-- Every value that a piece returns satisfies `P`.
pub record Returns {A : Type 0} (P : A → Type 0) (m : M A) : Type 0 where
  pub at : (t : Trace) (a : A) → (m t).0 ≡ returned a → P a

pub Returns-pure : {A : Type 0} (P : A → Type 0) (a : A) → P a → Returns P (pure a)
Returns-pure P a h = record { at = λ t b e. subst P (cc e) h }

pub Returns-bind :
    {A B : Type 0} (P : B → Type 0) (m : M A) (f : A → M B)
    → ((a : A) → Returns P (f a))
    → Returns P (m >>= f)
Returns-bind P m f h = record {
  at = λ t b e.
      let (a, came, runs) = >>=-returned m f t e in
      (h a).at (m t).1 b (sym (ap (λ r. r.0) runs) ∙ e);
}

then_with-Adds_of :
    {A B : Type 0} (Q : Event → Type 0) (o : Outcome A) (t : Trace) (f : A → M B)
    → ((a : A) → o ≡ returned a → Emits Q (f a))
    → Adds Q t (then_with o t f).1
then_with-Adds_of Q (returned a) t f h = (h a refl).at t
then_with-Adds_of Q (raised e) t f h = same
then_with-Adds_of Q (exited n) t f h = same

-- The rest may rely on what the first part returns.
pub Emits-bind_of :
    {A B : Type 0} (Q : Event → Type 0) (P : A → Type 0) (m : M A) (f : A → M B)
    → Emits Q m
    → Returns P m
    → ((a : A) → P a → Emits Q (f a))
    → Emits Q (m >>= f)
unfolding ◌>>=◌
Emits-bind_of Q P m f hm hp hf = record {
  at = λ t. Adds-trans (hm.at t) (then_with-Adds_of Q (m t).0 (m t).1 f λ a e. hf a (hp.at t a e));
}
