-- ===== src/Script/Tree/Laws.antt =====
-- Where `create_package_fs` and `package_scripts` write.
use influxdb_relay.Base.{String}
use influxdb_relay.Os.{Os, Event, did, makedirs, rmtree, chmod, copyfile, copy, rename}
use influxdb_relay.Script.Paths.{IsUnder}

-- The script itself creates, fills or marks only paths under `root`, and removes or renames none.
abbrev pub WritesUnder : String → Event → Type 0
WritesUnder root (did (makedirs path)) = IsUnder root path
WritesUnder root (did (rmtree path)) = ⊥
WritesUnder root (did (chmod path mode)) = IsUnder root path
WritesUnder root (did (copyfile source to)) = IsUnder root to
WritesUnder root (did (copy source to)) = IsUnder root to
WritesUnder root (did (rename source to)) = ⊥
WritesUnder root _ = Unit
