-- ===== src/Script/Version.antt =====
-- build.py: `increment_minor_version`.
pub mod Laws
use influxdb_relay.Base.{String, List, [], ◌∷◌}
use influxdb_relay.Base.Text.{split, join}
use influxdb_relay.Base.Decimal.{pos, add_one, int, str}
use influxdb_relay.Os.{M, pure, or_raise, ◌>>=◌, value_error}

-- The parts of the version, three or another number of them.
unfoldable pub increment_parts : String → List String → M String
increment_parts version (major ∷ minor ∷ patch ∷ []) = do
  n ← or_raise (int minor) value_error
  pure (join "." (major ∷ str (add_one n) ∷ str (pos 0) ∷ []))
increment_parts version _ = pure version

unfoldable pub increment_minor_version : String → M String
increment_minor_version version = increment_parts version (split "." version)
