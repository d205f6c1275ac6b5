-- ===== src/Script/Digest.antt =====
-- build.py: `generate_md5_from_file`. The hash is `hashlib`'s, a parameter.
pub mod Laws
use influxdb_relay.Base.{
  ℕ, zero, suc, String, Option, none, some, List, [], ◌∷◌, ◌++◌, ◌≡◌, take, drop, length,
}
use influxdb_relay.Os.{Os, M, ◌>>=◌, or_raise, asks, os_error}

-- `hashlib.md5()`, `m.update(chunk)` and `m.hexdigest()`.
pub record Md5 : Type 1 where
  pub State : Type 0
  pub start : State
  pub update : State → List ℕ → State
  pub hexdigest : State → String

-- "Repeated calls are equivalent to a single call with the concatenation of all the arguments."
pub record IsIncremental (h : Md5) : Type 0 where
  pub update-nil : (s : h.State) → h.update s [] ≡ s
  pub update-append : (s : h.State) (a b : List ℕ) → h.update (h.update s a) b ≡ h.update s (a ++ b)

module _ (h : Md5) where
  -- `for chunk in iter(lambda: f.read(size), b"")`, over the bytes left to read.
  unfoldable pub update_chunks : ℕ → ℕ → List ℕ → h.State → Option (h.State)
  update_chunks zero size bytes s = none
  update_chunks (suc fuel) size bytes s = elim (take size bytes) [
    | [] ↦ some s
    | b ∷ chunk ↦ update_chunks fuel size (drop size bytes) (h.update s (b ∷ chunk))
  ]

  -- One round for each byte and one more are enough, by `update_chunks-update`.
  unfoldable pub digest : List ℕ → Option String
  digest bytes = elim (update_chunks (suc (length bytes)) 4096 bytes h.start) [
    | none ↦ none
    | some s ↦ some (h.hexdigest s)
  ]

  unfoldable pub generate_md5_from_file : Os → String → M String
  generate_md5_from_file os path = do
    read ← asks (λ t. os.contents t path)
    bytes ← or_raise read os_error
    or_raise (digest bytes) os_error
