-- ===== src/Script/Digest/Laws.antt =====
-- Reading a file in chunks makes no difference to its digest.
use influxdb_relay.Base.{
  ℕ, zero, suc, ◌<◌, some, List, [], ◌∷◌, ◌≡◌, ◌∙◌, ap, take, drop, length, take-append-drop,
  length-drop, arith,
}
use influxdb_relay.Script.Digest.{Md5, IsIncremental, update_chunks, digest}

module _ (h : Md5) (laws : IsIncremental h) where
  -- With more rounds than bytes the loop ends, and has taken in all of the bytes.
  update_chunks-update :
      (fuel k : ℕ) (bytes : List ℕ) (s : h.State)
      → length bytes < fuel
      → update_chunks h fuel (suc k) bytes s ≡ some (h.update s bytes)
  unfolding update_chunks
  update_chunks-update zero k bytes s lt = absurd (omega arith)
  update_chunks-update (suc fuel) k [] s lt = rw laws.update-nil
  update_chunks-update (suc fuel) k (b ∷ bytes) s lt =
      update_chunks-update fuel k (drop k bytes) (h.update s (b ∷ take k bytes))
        (omega (arith, length-drop k bytes))
      ∙ ap some (laws.update-append s (b ∷ take k bytes) (drop k bytes))
      ∙ ap (λ (bs : List ℕ). some (h.update s (b ∷ bs))) (take-append-drop k bytes)

  -- The digest over chunks of 4096 bytes always comes out, and is the digest of the whole contents,
  -- for a hash that takes chunks in as it takes in their concatenation.
  pub digest-update :
      (bytes : List ℕ) → digest h bytes ≡ some (h.hexdigest (h.update h.start bytes))
  unfolding digest
  digest-update bytes =
      rw (update_chunks-update (suc (length bytes)) 4095 bytes h.start (omega arith), digest)
