-- ===== src/Script/Main.antt =====
-- build.py: `main`, over the parsed arguments. The parser is argparse's. `check_environ` only logs, and always returns True.
pub mod Laws
pub mod Emits
pub mod Defaults
pub mod Failure
pub mod Removals
pub mod Branch
use influxdb_relay.Base.{
  ℕ, Bool, true, false, String, ◌<>◌, Option, none, some, List, [], ◌∷◌, ◌++◌, if◌then◌else◌, ◌||◌,
  ◌&&◌, not, is_some, map,
}
use influxdb_relay.Base.Text.{split}
use influxdb_relay.Os.{
  Os, M, pure, ◌>>=◌, ◌>>◌, or_raise, raise, asks, tell, when, reported, name_error, type_error,
  for_each,
}
use influxdb_relay.Script.{supported_builds, lookup, insert, join_path}
use influxdb_relay.Script.Shell.{run}
use influxdb_relay.Script.Version.{increment_minor_version}
use influxdb_relay.Script.Repo.{get_current_commit, get_current_branch, get_current_version, go_get}
use influxdb_relay.Script.Host.{get_system_arch, get_system_platform, check_path_for, check_prereqs}
use influxdb_relay.Script.Target.{BuildArgs, build}
use influxdb_relay.Script.Digest.{Md5, generate_md5_from_file}
use influxdb_relay.Script.Package.{package_build}
use influxdb_relay.Script.Package.Names.{PackageArgs}
use text.Mathlib.Text.{◌==◌ as str_eq}

-- `args`. `--name`, `--verbose` and `--generate` are parsed and not read.
pub record Args : Type 0 where
  pub outdir : String
  pub arch : String
  pub platform : String
  pub branch : String
  pub commit : String
  pub version : String
  pub iteration : String
  pub nightly : Bool
  pub package_output : Bool
  pub release : Bool
  pub clean : Bool
  pub no_get : Bool
  pub no_uncommitted : Bool
  pub build_tags : Option String
  pub static : Bool

abbrev pub BuildOutput : Type 0
BuildOutput = List (String × List (String × String))

abbrev pub tags_of : Option String → List String
tags_of none = []
tags_of (some tags) = split "," tags

abbrev pub build_args : Args → String → String → String → BuildArgs
build_args args platform arch outdir = record {
  version = args.version;
  platform = platform;
  arch = arch;
  nightly = args.nightly;
  clean = args.clean;
  outdir = outdir;
  tags = tags_of args.build_tags;
  static = args.static;
}

abbrev pub package_args : Args → PackageArgs
package_args args = record {
  version = args.version;
  nightly = args.nightly;
  iteration = args.iteration;
  static = args.static;
  release = args.release;
}

abbrev pub outdir_of : Args → Bool → String → String → String
outdir_of args single platform arch =
    if single then args.outdir else join_path (join_path args.outdir platform) arch

module _ (os : Os) where
  -- The version of a nightly build.
  unfoldable pub nightly_args : Args → M Args
  nightly_args args =
      if args.nightly
      then (do
        version ← increment_minor_version args.version
        stamp ← asks os.utc_stamp
        pure (record args { version = version <> "~n" <> stamp; iteration = "0" }))
      else pure args

  -- The two tests of the branch and the commit; false where `main` returns 1.
  unfoldable pub checkout : Args → String → String → M Bool
  checkout args orig_commit orig_branch =
      if not (str_eq args.branch orig_branch) && not (str_eq args.commit orig_commit)
      then pure false
      else if not (str_eq args.branch orig_branch)
      then (run os ("git checkout " <> args.branch) false false >> pure true)
      else if not (str_eq args.commit orig_commit)
      then (run os ("git checkout " <> args.commit) false false >> pure true)
      else pure true

  unfoldable pub dependencies : Args → M Bool
  dependencies args =
      if args.no_get then pure true else go_get os args.branch false args.no_uncommitted

  -- The builds of one platform: its directories, or none where a build returned False.
  unfoldable pub build_archs :
      Args
      → Bool
      → String
      → List String
      → List (String × String)
      → M (Option (List (String × String)))
  build_archs args single platform [] dirs = pure (some dirs)
  build_archs args single platform (arch ∷ archs) dirs = do
    let od = outdir_of args single platform arch
    done ← build os (build_args args platform arch od)
    let rest = build_archs args single platform archs (insert arch od dirs)
    if done then rest else pure none

  -- `for arch in None` raises TypeError.
  abbrev archs_of : Args → String → Option (List String)
  archs_of args platform =
      if str_eq args.arch "all" then lookup platform supported_builds else some (args.arch ∷ [])

  abbrev go_on : {A : Type 0} → Option A → (A → M (Option BuildOutput)) → M (Option BuildOutput)
  go_on none f = pure none
  go_on (some a) f = f a

  unfoldable pub build_platforms : Args → Bool → List String → BuildOutput → M (Option BuildOutput)
  build_platforms args single [] output = pure (some output)
  build_platforms args single (platform ∷ platforms) output = do
    let single' = single && not (str_eq args.arch "all")
    archs ← or_raise (archs_of args platform) type_error
    dirs ← build_archs args single' platform archs []
    let later = λ (d : List (String × String)).
        build_platforms args single' platforms (insert platform d output)
    go_on dirs later

  unfoldable pub build_all : Args → M (Option BuildOutput)
  build_all args =
      if str_eq args.platform "all"
      then build_platforms args false (map (λ p. p.0) supported_builds) []
      else build_platforms args true (args.platform ∷ []) []

  unfoldable pub return_to : String → M (Unit {0})
  return_to orig_branch = do
    branch ← get_current_branch os
    when (not (str_eq orig_branch branch))
        do run os ("git checkout " <> orig_branch) false false; pure tt

-- `p.split('/')[-1]`
abbrev last_part : List String → String
last_part [] = ""
last_part (x ∷ []) = x
last_part (x ∷ y ∷ xs) = last_part (y ∷ xs)

module _ (os : Os) (md5 : Md5) where
  unfoldable pub report_package : String → M (Unit {0})
  report_package p = do
    sum ← generate_md5_from_file md5 os p
    tell (reported (last_part (split "/" p)) sum)

  -- The packages, where they are asked for; false where `main` returns 1.
  unfoldable pub make_packages : Args → BuildOutput → M Bool
  make_packages args output =
      if args.package_output
      then (do
        fpm ← check_path_for os "fpm"
        if is_some fpm
            then (do
              packages ← package_build os (package_args args) output
              for_each packages report_package
              pure true)
            else pure false)
      else pure true

  -- `main` from the checkout on, in pieces: what follows the packages, the builds, the dependencies
  -- and the checkout.
  unfoldable pub finish : String → Bool → M ℕ
  finish orig_branch packed = if not packed then pure 1 else do return_to os orig_branch; pure 0

  unfoldable pub after_builds : Args → String → Option BuildOutput → M ℕ
  after_builds args orig_branch none = pure 1
  after_builds args orig_branch (some output) = do
    packed ← make_packages args output
    finish orig_branch packed

  unfoldable pub after_dependencies : Args → String → Bool → M ℕ
  after_dependencies args orig_branch ready =
      if not ready
      then pure 1
      else do built ← build_all os args; after_builds args orig_branch built

  unfoldable pub after_checkout : Args → String → Bool → M ℕ
  after_checkout args orig_branch moved =
      if not moved
      then pure 1
      else do ready ← dependencies os args; after_dependencies args orig_branch ready

  unfoldable pub main_build : Args → String → String → M ℕ
  main_build args orig_commit orig_branch = do
    moved ← checkout os args orig_commit orig_branch
    after_checkout args orig_branch moved

  -- Line 582 reads `target_platform`, which no line defines.
  unfoldable pub after_questions : Args → String → String → M ℕ
  after_questions args orig_commit orig_branch =
      if not (is_some (lookup args.platform supported_builds)) && not (str_eq args.platform "all")
      then raise name_error
      else main_build args orig_commit orig_branch

  unfoldable pub after_prereqs : Args → Bool → M ℕ
  after_prereqs args found = if not found then pure 1 else do
    orig_commit ← get_current_commit os true
    orig_branch ← get_current_branch os
    after_questions args orig_commit orig_branch

  unfoldable pub after_version : Args → M ℕ
  after_version args = do found ← check_prereqs os; after_prereqs args found

  unfoldable pub main : Args → M ℕ
  main args =
      if args.release && args.nightly
      then pure 1
      else do args' ← nightly_args os args; after_version args'
