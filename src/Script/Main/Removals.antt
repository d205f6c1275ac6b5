-- ===== src/Script/Main/Removals.antt =====
-- What `main` removes.
use influxdb_relay.Base.{[], ◌∷◌, String, Bool, true, ◌≡◌, ◌≢◌, ◌⊎◌}
use influxdb_relay.Os.{
  Os, Event, did, made_temp, makedirs, rmtree, chmod, copyfile, copy, rename, Trace,
}
use influxdb_relay.Os.Keeps.{Emits}
use influxdb_relay.Script.Main
use text.Mathlib.Text.{◌==◌ as str_eq}

-- An output directory of a build with --clean; the texts / and . are excepted.
abbrev pub IsCleaned : Main.Args → String → Type 0
IsCleaned args path =
    (args.clean ≡ true)
    × (path ≢ "/")
    × (path ≢ ".")
    × ((single : Bool) × (platform : String) × (arch : String) × (path
          ≡ Main.outdir_of args single platform arch))

-- The directory was made by `mkdtemp` before.
unfoldable pub WasMade : String → Trace → Type 0
WasMade path [] = ⊥
WasMade path (e ∷ t) = (e ≡ made_temp path) ⊎ WasMade path t

-- Each directory that was removed had been made by `mkdtemp`, or was to be cleaned.
unfoldable pub RemovedOwn : Main.Args → Trace → Type 0
RemovedOwn args [] = Unit
RemovedOwn args (e ∷ t) =
    ((path : String) → e ≡ did (rmtree path) → WasMade path t ⊎ IsCleaned args path)
    × RemovedOwn args t

-- What an event may be at any time.
abbrev RemovesCleaned : Main.Args → Event → Type 0
RemovesCleaned args (did (makedirs path)) = Unit
RemovesCleaned args (did (rmtree path)) = IsCleaned args path
RemovesCleaned args (did (chmod path mode)) = Unit
RemovesCleaned args (did (copyfile src dst)) = Unit
RemovesCleaned args (did (copy src dst)) = Unit
RemovesCleaned args (did (rename src dst)) = Unit
RemovesCleaned args _ = Unit

-- The parts of the arguments that a removal depends on.
abbrev IsSame : Main.Args → Main.Args → Type 0
IsSame args args' = (args'.clean ≡ args.clean) × (args'.outdir ≡ args.outdir)

module _ (os : Os) (args : Main.Args) where
  abbrev J : Trace → Type 0
  J = RemovedOwn args
