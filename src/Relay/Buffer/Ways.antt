-- ===== src/Relay/Buffer/Ways.antt =====
-- The loop of `add` of relay/retry.go, step by step.
use influxdb_relay.Base.{
  ℕ, true, false, String, List, [], ◌∷◌, ◌++◌, ◌≡◌, inl, inr, ltb, length, arith, Bool-cases, ◌+◌,
}
use influxdb_relay.Relay.Buffer.{Bytes, Batch, has_key, place}

module _ (max_batch id : ℕ) (buf : Bytes) (query auth : String) where
  abbrev pub placed : List Batch → List Batch
  placed bs = (place max_batch id buf query auth bs).0

  -- The four ways of the loop at a batch, and the batches that result.
  pub data Way (b : Batch) (bs r : List Batch) : Type 0 where
    other : has_key query auth b ≡ false → r ≡ b ∷ placed bs → Way b bs r
    closed : has_key query auth b ≡ true → b.full ≡ true → r ≡ b ∷ placed bs → Way b bs r
    close : has_key query auth b ≡ true → r ≡ record b { full = true } ∷ placed bs → Way b bs r
    takes :
        has_key query auth b ≡ true
        → b.full ≡ false
        → ltb max_batch (b.size + length buf) ≡ false
        → r ≡ record b { size = b.size + length buf; bufs = b.bufs ++ (buf ∷ []) } ∷ bs
        → Way b bs r

  pub place-Way : (b : Batch) (bs : List Batch) → Way b bs (placed (b ∷ bs))
  unfolding place
  place-Way b bs = elim (Bool-cases (has_key query auth b)) [
    | inr e ↦ other e (ground arith)
    | inl e ↦ elim (Bool-cases b.full) [
      | inl f ↦ closed e f (ground arith)
      | inr f ↦ elim (Bool-cases (ltb max_batch (b.size + length buf))) [
        | inl g ↦ close e (ground arith)
        | inr g ↦ takes e f g (ground arith)
      ]
    ]
  ]
