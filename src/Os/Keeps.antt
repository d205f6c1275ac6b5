-- ===== src/Os/Keeps.antt =====
-- Properties of the trace that a piece of the script keeps however it ends, with a rule for each way of putting
-- pieces together.
pub mod Outcomes
pub mod Traces
use influxdb_relay.Base.{
  ℕ, String, Bool, true, false, Option, none, some, List, [], ◌∷◌, if◌then◌else◌, ◌≡◌, refl, All,
}
use influxdb_relay.Os.{
  os_error, Os, Event, did, made_temp, Action, Trace, M, Outcome, returned, raised, exited,
  Exception, pure, raise, sys_exit, ◌>>=◌, ◌>>◌, then_with, asks, tell, try_finally, end_with,
  for_each, or_raise, perform, mkdtemp, when,
}

-- The second trace is the first with events on top that satisfy `Q`.
pub data Adds (Q : Event → Type 0) (t : Trace) : Trace → Type 0 where
  same : Adds Q t t
  more : {u : Trace} (e : Event) → Q e → Adds Q t u → Adds Q t (e ∷ u)

pub Adds-trans : {Q : Event → Type 0} {t u v : Trace} → Adds Q t u → Adds Q u v → Adds Q t v
Adds-trans a same = a
Adds-trans a (more e q b) = more e q (Adds-trans a b)

Adds-mono :
    {P Q : Event → Type 0} {t u : Trace} → ((e : Event) → P e → Q e) → Adds P t u → Adds Q t u
Adds-mono h same = same
Adds-mono h (more e p a) = more e (h e p) (Adds-mono h a)

-- Events stay in the trace, and every event that `m` adds satisfies `Q`, however it ends.
pub record Emits {A : Type 0} (Q : Event → Type 0) (m : M A) : Type 0 where
  pub at : (t : Trace) → Adds Q t (m t).1

pub Emits-mono :
    {A : Type 0} (P Q : Event → Type 0) (m : M A)
    → ((e : Event) → P e → Q e)
    → Emits P m
    → Emits Q m
Emits-mono P Q m h k = record { at = λ t. Adds-mono h (k.at t) }

module _ {A B : Type 0} (Q : Event → Type 0) where
  then_with-Adds :
      (o : Outcome A) (t : Trace) (f : A → M B)
      → ((a : A) → Emits Q (f a))
      → Adds Q t (then_with o t f).1
  then_with-Adds (returned a) t f h = (h a).at t
  then_with-Adds (raised e) t f h = same
  then_with-Adds (exited n) t f h = same

  pub Emits-bind :
      (m : M A) (f : A → M B) → Emits Q m → ((a : A) → Emits Q (f a)) → Emits Q (m >>= f)
  unfolding ◌>>=◌
  Emits-bind m f hm hf = record {
    at = λ t. Adds-trans (hm.at t) (then_with-Adds (m t).0 (m t).1 f hf);
  }

module _ {A : Type 0} (Q : Event → Type 0) where
  pub Emits-pure : (a : A) → Emits Q (pure a)
  Emits-pure a = record { at = λ t. same }

  pub Emits-raise : (e : Exception) → Emits Q (raise {A = A} e)
  unfolding raise
  Emits-raise e = record { at = λ t. same }

  pub Emits-asks : (q : Trace → A) → Emits Q (asks q)
  unfolding asks
  Emits-asks q = record { at = λ t. same }

  pub Emits-or_raise : (o : Option A) (e : Exception) → Emits Q (or_raise o e)
  unfolding or_raise
  Emits-or_raise none e = Emits-raise e
  Emits-or_raise (some a) e = Emits-pure a

  pub Emits-if :
      (b : Bool) (m n : M A)
      → (b ≡ true → Emits Q m)
      → (b ≡ false → Emits Q n)
      → Emits Q (if b then m else n)
  Emits-if true m n hm hn = hm refl
  Emits-if false m n hm hn = hn refl

  pub Emits-sys_exit : (n : ℕ) → Emits Q (sys_exit {A = A} n)
  unfolding sys_exit
  Emits-sys_exit n = record { at = λ t. same }

  end_with-trace : (o : Outcome A) (r : Outcome (Unit {0}) × Trace) → (end_with o r).1 ≡ r.1
  end_with-trace o (returned _, t) = refl
  end_with-trace o (raised e, t) = refl
  end_with-trace o (exited n, t) = refl

  pub Emits-try_finally :
      (m : M A) (last : M (Unit {0})) → Emits Q m → Emits Q last → Emits Q (try_finally m last)
  unfolding try_finally
  Emits-try_finally m last hm hl = record {
    at = λ t. rw (end_with-trace (m t).0 (last (m t).1)) (Adds-trans (hm.at t) (hl.at (m t).1));
  }

  pub Emits-for_each :
      (xs : List A) (f : A → M (Unit {0})) → All (λ a. Emits Q (f a)) xs → Emits Q (for_each xs f)
  unfolding for_each
  Emits-for_each [] f h = record { at = λ t. same }
  Emits-for_each (x ∷ xs) f h =
      Emits-bind Q (f x) (λ _. for_each xs f) h.0 (λ _. Emits-for_each xs f h.1)

  pub Emits-for_each_any :
      (xs : List A) (f : A → M (Unit {0})) → ((a : A) → Emits Q (f a)) → Emits Q (for_each xs f)
  Emits-for_each_any xs f h = Emits-for_each xs f (every xs)
    where
      every : (xs : List A) → All (λ a. Emits Q (f a)) xs
      every [] = tt
      every (x ∷ xs) = (h x, every xs)

module _ (Q : Event → Type 0) where
  pub Emits-when : (b : Bool) (m : M (Unit {0})) → (b ≡ true → Emits Q m) → Emits Q (when b m)
  Emits-when true m h = h refl
  Emits-when false m h = record { at = λ t. same }

  pub Emits-tell : (e : Event) → Q e → Emits Q (tell e)
  unfolding tell
  Emits-tell e h = record { at = λ t. more e h same }

  pub Emits-perform : (os : Os) (a : Action) → Q (did a) → Emits Q (perform os a)
  unfolding perform
  Emits-perform os a h = record { at = λ t. performed (os.fails t a) t }
    where
      performed :
          (b : Bool) (t : Trace) → Adds Q t ((if b then raise os_error else pure tt) (did a ∷ t)).1
      performed true t = more (did a) h same
      performed false t = more (did a) h same

  pub Emits-mkdtemp :
      (os : Os) (prefix : String)
      → ((path : String) → Q (made_temp path))
      → Emits Q (mkdtemp os prefix)
  unfolding mkdtemp
  Emits-mkdtemp os prefix h = record { at = λ t. made (os.mkdtemp t prefix) t }
    where
      made :
          (o : Option String) (t : Trace)
          → Adds Q t ((or_raise o os_error >>= λ path. tell (made_temp path) >> pure path) t).1
      made none t = same
      made (some path) t = more (made_temp path) (h path) same

pub ruleset emits_rules = (
  Emits-pure, Emits-raise, Emits-asks, Emits-or_raise, Emits-if, Emits-sys_exit, Emits-try_finally,
  Emits-for_each_any, Emits-when, Emits-tell, Emits-perform, Emits-mkdtemp, Emits-bind,
)
