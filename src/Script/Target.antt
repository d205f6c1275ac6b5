-- ===== src/Script/Target.antt =====
-- build.py: `build`, which compiles each target by one shell command.
pub mod Effects
pub mod Laws
use influxdb_relay.Base.{
  Bool, true, false, String, ◌<>◌, Option, none, some, List, [], ◌∷◌, if◌then◌else◌, ◌&&◌, ◌||◌,
  not,
}
use influxdb_relay.Base.Text.{contains, replace, join}
use influxdb_relay.Os.{
  Os, M, pure, ◌>>=◌, ◌>>◌, or_raise, asks, perform, makedirs, rmtree, type_error, when,
}
use influxdb_relay.Script.{targets, join_path}
use influxdb_relay.Script.Shell.{run, create_temp_dir}
use influxdb_relay.Script.Repo.{get_current_branch, get_current_commit}
use influxdb_relay.Script.Host.{get_go_version}
use text.Mathlib.Text.{◌==◌ as str_eq}

-- The arguments of `build`; `nightly` is not used.
pub record BuildArgs : Type 0 where
  pub version : String
  pub platform : String
  pub arch : String
  pub nightly : Bool
  pub clean : Bool
  pub outdir : String
  pub tags : List String
  pub static : Bool

-- The variables that a round of the loop over the targets changes.
pub record Choice : Type 0 where
  pub arch : String
  pub static : Bool

-- "Handle static binary output": the choice, and the beginning of the command.
unfoldable pub handle_static : Choice → Choice × String
handle_static c =
    if c.static || contains "static_" c.arch
    then (
      if contains "static_" c.arch
          then record { arch = replace c.arch "static_" ""; static = true }
          else c,
      "CGO_ENABLED=0 ",
    )
    else (c, "")

-- "Handle variations in architecture output".
unfoldable pub go_arch : String → String
go_arch arch =
    if str_eq arch "i386" || str_eq arch "i686"
    then "386"
    else if contains "arm" arch
    then "arm"
    else arch

-- The GOARM setting, or none for an architecture that is refused.
unfoldable pub go_arm : String → Option String
go_arm arch =
    if not (contains "arm" arch)
    then some ""
    else if str_eq arch "armel"
    then some "GOARM=5 "
    else if str_eq arch "armhf" || str_eq arch "arm"
    then some "GOARM=6 "
    else if str_eq arch "arm64"
    then some "GOARM=7 "
    else none

-- `name value` up to Go 1.4, `name=value` after it.
unfoldable pub ld_flags : Bool → Bool → String → String → String → String
ld_flags old static version branch commit =
    let sep = if old then " " else "=" in
    "-ldflags=\""
    <> (if static then "-s " else "")
    <> "-X main.version"
    <> sep
    <> version
    <> " -X main.branch"
    <> sep
    <> branch
    <> " -X main.commit"
    <> sep
    <> commit
    <> "\" "

unfoldable pub tag_flags : List String → String
unfolding join
tag_flags [] = ""
tag_flags (tag ∷ tags) = "-tags " <> join "," (tag ∷ tags) <> " "

-- `target + '.exe'` on Windows.
abbrev pub binary_name : String → String → String
binary_name platform target = if str_eq platform "windows" then target <> ".exe" else target

module _ (os : Os) (args : BuildArgs) where
  unfoldable pub clean_outdir : M (Unit {0})
  clean_outdir = do
    there ← asks (λ t. os.exists t args.outdir)
    if not there
        then perform os (makedirs args.outdir)
        else when (args.clean && not (str_eq args.outdir "/") && not (str_eq args.outdir "."))
            do perform os (rmtree args.outdir); perform os (makedirs args.outdir)

  -- The command of one target, from the choice after both adjustments.
  unfoldable pub compile : String → String → Choice → String → M (Unit {0})
  compile target path c prefix = do
    found ← get_go_version os
    go_version ← or_raise found type_error
    branch ← get_current_branch os
    commit ← get_current_commit os false
    run os
        (prefix
          <> "go build -o "
          <> join_path args.outdir (binary_name args.platform target)
          <> " "
          <> tag_flags args.tags
          <> ld_flags (contains "1.4" go_version) c.static args.version branch commit
          <> (if c.static then "-a -installsuffix cgo " else "")
          <> path)
        false true
    pure tt

  -- One round up to the test of the ARM architecture, then the rest of it.
  unfoldable pub build_target : String → String → Choice → Choice × (Option String)
  build_target target path c =
      let (c', prefix) = handle_static c in
      let arch = go_arch c'.arch in
      (
        record { arch = arch; static = c'.static },
        elim (go_arm arch) [
          | none ↦ none
          | some arm ↦ some (prefix <> "GOOS=" <> args.platform <> " GOARCH=" <> arch <> " " <> arm)
        ],
      )

  abbrev pub go_on : Option String → (String → M Bool) → M Bool
  go_on none f = pure false
  go_on (some prefix) f = f prefix

  unfoldable pub build_targets : List (String × String) → Choice → M Bool
  build_targets [] c = pure true
  build_targets ((target, path) ∷ rest) c =
      let next = build_target target path c in
      let later = build_targets rest next.0 in
      go_on next.1 λ prefix. compile target path next.0 prefix >> later

  -- The first three calls are made for the log.
  unfoldable pub build : M Bool
  build = do
    get_go_version os
    get_current_branch os
    get_current_commit os false
    clean_outdir
    create_temp_dir os none
    build_targets targets (record { arch = args.arch; static = args.static })
