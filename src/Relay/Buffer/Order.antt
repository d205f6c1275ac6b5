-- ===== src/Relay/Buffer/Order.antt =====
-- The writes of one query and one authorization stay in the order in which they came.
use influxdb_relay.Base.{
  ℕ, true, false, ◌&&◌, String, List, [], ◌∷◌, ◌++◌, ◌≡◌, refl, subst, ◌⊎◌, inl, inr, if◌then◌else◌,
  All, arith, eq_iff, Bool-cases,
}
use influxdb_relay.Relay.Buffer.{Bytes, Batch, new_batch, has_key, place}
use mathlib.Core.List.{append_assoc, append-nil}
use text.Mathlib.Text.{◌==◌ as str_eq}
use influxdb_relay.Relay.Buffer.Ways.{Way, other, closed, close, takes, placed, place-Way}

-- The writes that are buffered for a key, oldest first.
unfoldable pub pending : String → String → List Batch → List Bytes
pending query auth [] = []
pending query auth (b ∷ bs) =
    let rest = pending query auth bs in if has_key query auth b then b.bufs ++ rest else rest

abbrev pub NoKey : String → String → List Batch → Type 0
NoKey query auth = All λ b. has_key query auth b ≡ false

-- Of the batches of one key only the last may be open to more writes.
abbrev pub OneOpen : List Batch → Type 0
OneOpen [] = Unit
OneOpen (b ∷ bs) = ((b.full ≡ true) ⊎ NoKey b.query b.auth bs) × OneOpen bs

pending-NoKey :
    (query auth : String) (bs : List Batch) → NoKey query auth bs → pending query auth bs ≡ []
unfolding pending
pending-NoKey query auth [] h = refl
pending-NoKey query auth (b ∷ bs) h = rw (h.0) (pending-NoKey query auth bs h.1)

key-eq :
    (query auth : String) (b : Batch)
    → has_key query auth b ≡ true
    → (b.query ≡ query) × (b.auth ≡ auth)
key-eq query auth b h = ground (arith, eq_iff b.query query, eq_iff b.auth auth)

pub key_refl : (query auth : String) → (str_eq query query && str_eq auth auth) ≡ true
key_refl query auth = ground (arith, eq_iff query query, eq_iff auth auth)

last-NoKey :
    (query auth : String) (b : Batch) (bs : List Batch)
    → has_key query auth b ≡ true
    → b.full ≡ false
    → (b.full ≡ true) ⊎ NoKey b.query b.auth bs
    → NoKey query auth bs
last-NoKey query auth b bs e f (inl g) = ground arith
last-NoKey query auth b bs e f (inr h) =
    subst (λ q. NoKey q auth bs) (key-eq query auth b e).0
      (subst (λ a. NoKey b.query a bs) (key-eq query auth b e).1 h)

-- An open batch of a key holds the last writes of the key.
last_pending :
    (query auth : String) (b : Batch) (bs : List Batch)
    → has_key query auth b ≡ true
    → b.full ≡ false
    → (b.full ≡ true) ⊎ NoKey b.query b.auth bs
    → pending query auth bs ≡ []
last_pending query auth b bs e f h = pending-NoKey query auth bs (last-NoKey query auth b bs e f h)

module _ (max_batch id : ℕ) (buf : Bytes) (query auth : String) where
  NoKey-Way :
      (q a : String) (b : Batch) (bs r : List Batch)
      → NoKey q a (b ∷ bs)
      → NoKey q a (placed max_batch id buf query auth bs)
      → Way max_batch id buf query auth b bs r
      → NoKey q a r
  NoKey-Way q a b bs r h rest (other e w) = rw w (h.0, rest)
  NoKey-Way q a b bs r h rest (closed e f w) = rw w (h.0, rest)
  NoKey-Way q a b bs r h rest (close e w) = rw w (h.0, rest)
  NoKey-Way q a b bs r h rest (takes e f g w) = rw w h

  NoKey-placed :
      (q a : String) (bs : List Batch)
      → (str_eq query q && str_eq auth a) ≡ false
      → NoKey q a bs
      → NoKey q a (placed max_batch id buf query auth bs)
  unfolding place new_batch
  NoKey-placed q a [] ne h = (ne, tt)
  NoKey-placed q a (b ∷ bs) ne h =
      NoKey-Way q a b bs _ h (NoKey-placed q a bs ne h.1)
        (place-Way max_batch id buf query auth b bs)

  -- A batch of another key has none of its key after it, if it had none before.
  still_last :
      (b : Batch) (bs : List Batch)
      → has_key query auth b ≡ false
      → (b.full ≡ true) ⊎ NoKey b.query b.auth bs
      → (b.full ≡ true) ⊎ NoKey b.query b.auth (placed max_batch id buf query auth bs)
  still_last b bs e (inl f) = inl f
  still_last b bs e (inr h) = inr (
      NoKey-placed b.query b.auth bs
        (ground (
          arith,
          eq_iff b.query query,
          eq_iff query b.query,
          eq_iff b.auth auth,
          eq_iff auth b.auth,
        ))
        h)

  OneOpen-Way :
      (b : Batch) (bs r : List Batch)
      → OneOpen (b ∷ bs)
      → OneOpen (placed max_batch id buf query auth bs)
      → Way max_batch id buf query auth b bs r
      → OneOpen r
  OneOpen-Way b bs r h rest (other e w) = rw w (still_last b bs e h.0, rest)
  OneOpen-Way b bs r h rest (closed e f w) = rw w (inl f, rest)
  OneOpen-Way b bs r h rest (close e w) = rw w (inl refl, rest)
  OneOpen-Way b bs r h rest (takes e f g w) = rw w h

  -- `add` keeps at most one batch of a key open, and that one last.
  pub place-OneOpen :
      (bs : List Batch) → OneOpen bs → OneOpen (placed max_batch id buf query auth bs)
  unfolding place new_batch
  place-OneOpen [] h = (inr tt, tt)
  place-OneOpen (b ∷ bs) h =
      OneOpen-Way b bs _ h (place-OneOpen bs h.1) (place-Way max_batch id buf query auth b bs)

  pending-Way :
      (b : Batch) (bs r : List Batch)
      → OneOpen (b ∷ bs)
      → pending query auth (placed max_batch id buf query auth bs)
        ≡ pending query auth bs ++ (buf ∷ [])
      → Way max_batch id buf query auth b bs r
      → pending query auth r ≡ pending query auth (b ∷ bs) ++ (buf ∷ [])
  unfolding pending
  pending-Way b bs r h rest (other e w) = rw (w, e) rest
  pending-Way b bs r h rest (closed e f w) =
      rw (w, e, rest, append_assoc b.bufs (pending query auth bs) (buf ∷ []))
  pending-Way b bs r h rest (close e w) =
      rw (w, e, rest, append_assoc b.bufs (pending query auth bs) (buf ∷ []))
  pending-Way b bs r h rest (takes e f g w) =
      rw
        (
          w,
          e,
          last_pending query auth b bs e f h.0,
          append-nil (b.bufs ++ (buf ∷ [])),
          append-nil b.bufs,
        )
        refl

  -- `add` puts the write behind those of its key.
  pub pending-placed :
      (bs : List Batch)
      → OneOpen bs
      → pending query auth (placed max_batch id buf query auth bs)
        ≡ pending query auth bs ++ (buf ∷ [])
  unfolding place new_batch pending
  pending-placed [] h = rw (key_refl query auth) refl
  pending-placed (b ∷ bs) h =
      pending-Way b bs _ h (pending-placed bs h.1) (place-Way max_batch id buf query auth b bs)

  other_key :
      (q a : String) (b : Batch)
      → (str_eq query q && str_eq auth a) ≡ false
      → has_key query auth b ≡ true
      → has_key q a b ≡ false
  other_key q a b ne e = ground (
    arith,
    eq_iff b.query query,
    eq_iff query q,
    eq_iff b.query q,
    eq_iff b.auth auth,
    eq_iff auth a,
    eq_iff b.auth a,
  )

  others-Way :
      (q a : String) (b : Batch) (bs r : List Batch)
      → (str_eq query q && str_eq auth a) ≡ false
      → pending q a (placed max_batch id buf query auth bs) ≡ pending q a bs
      → Way max_batch id buf query auth b bs r
      → pending q a r ≡ pending q a (b ∷ bs)
  unfolding pending
  others-Way q a b bs r ne rest (other e w) = rw (w, rest) refl
  others-Way q a b bs r ne rest (closed e f w) = rw (w, rest) refl
  others-Way q a b bs r ne rest (close e w) = rw (w, rest) refl
  others-Way q a b bs r ne rest (takes e f g w) = rw (w, other_key q a b ne e) refl

  -- `add` leaves the writes of every other key as they are.
  pub others-placed :
      (q a : String) (bs : List Batch)
      → (str_eq query q && str_eq auth a) ≡ false
      → pending q a (placed max_batch id buf query auth bs) ≡ pending q a bs
  unfolding place new_batch pending
  others-placed q a [] ne = rw ne refl
  others-placed q a (b ∷ bs) ne =
      others-Way q a b bs _ ne (others-placed q a bs ne)
        (place-Way max_batch id buf query auth b bs)

pub pending-append :
    (query auth : String) (bs cs : List Batch)
    → pending query auth (bs ++ cs) ≡ pending query auth bs ++ pending query auth cs
unfolding pending
pending-append query auth [] cs = refl
pending-append query auth (b ∷ bs) cs = elim (Bool-cases (has_key query auth b)) [
  | inl e ↦
      rw
        (
          e,
          pending-append query auth bs cs,
          append_assoc b.bufs (pending query auth bs) (pending query auth cs),
        )
        refl
  | inr e ↦ rw (e, pending-append query auth bs cs) refl
]
