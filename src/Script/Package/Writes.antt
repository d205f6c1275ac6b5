-- ===== src/Script/Package/Writes.antt =====
-- The files and directories that `package` makes.
use influxdb_relay.Base.{String, false, ◌≡◌, All, List}
use influxdb_relay.Os.{Os, Event, did, rmtree, rename}
use influxdb_relay.Script.Paths.{IsPlain, has_dots}
use influxdb_relay.Script.Tree.Laws.{WritesUnder}
use influxdb_relay.Script.Package.Names.{PackageArgs}
use text.Mathlib.Text.{◌==◌ as str_eq}

-- As `WritesUnder tmp`, but files that fpm named may be renamed, and `tmp` itself may be removed.
abbrev pub PackageWrites : String → Event → Type 0
PackageWrites tmp (did (rename source to)) = Unit
PackageWrites tmp (did (rmtree path)) = path ≡ tmp
PackageWrites tmp e = WritesUnder tmp e

-- The platforms and architectures of a build output are relative paths without `..`.
abbrev pub IsRelativeOutput : List (String × List (String × String)) → Type 0
IsRelativeOutput = All λ p. IsPlain p.0 × All (λ a. IsPlain a.0) p.1

-- There is no `..` in the version and the iteration.
abbrev pub IsPlainVersion : PackageArgs → Type 0
IsPlainVersion args =
    (has_dots false args.version ≡ false) × (has_dots false args.iteration ≡ false)
