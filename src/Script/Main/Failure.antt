-- ===== src/Script/Main/Failure.antt =====
-- What `main` has done where it returns 1.
use influxdb_relay.Base.{
  String, Bool, true, false, ◌&&◌, Option, none, some, ◌≡◌, ◌≢◌, ◌⊎◌, inl, inr, arith,
  if◌then◌else◌, is_some,
}
use influxdb_relay.Os.{
  Os, Event, Command, ran, listed, did, made_temp, reported, makedirs, rmtree, chmod, copyfile,
  copy, rename, Trace, returned, pure, ◌>>=◌, ◌>>◌, for_each,
}
use influxdb_relay.Os.Keeps.{Adds, Emits-pure, Emits-raise}
use influxdb_relay.Os.Keeps.Outcomes.{
  EmitsOn, Avoids, Avoids-pure, Avoids-bind, EmitsOn-Emits, EmitsOn-Avoids, EmitsOn-bind_by,
  EmitsOn-bind, EmitsOn-if,
}
use influxdb_relay.Script.{prereqs}
use influxdb_relay.Script.Quiet.{get_current_branch-Emits, get_current_commit-Emits}
use influxdb_relay.Script.Host.{check_prereqs}
use influxdb_relay.Script.Digest.{Md5}
use influxdb_relay.Script.Package.{package_build}
use influxdb_relay.Script.Main
use influxdb_relay.Script.Main.Emits.{
  check_path_for-Emits, check_each-Emits, checkout-Emits, dependencies-Emits, build_all-Emits,
  nightly_args-Emits,
}

-- No package was made: no file was copied, renamed or marked, and no package reported. Commands may
-- have run, and directories may have been made or removed.
abbrev pub NotPacked : Event → Type 0
NotPacked (ran c) = Unit
NotPacked (listed names) = Unit
NotPacked (did (makedirs path)) = Unit
NotPacked (did (rmtree path)) = Unit
NotPacked (did (chmod path mode)) = ⊥
NotPacked (did (copyfile src dst)) = ⊥
NotPacked (did (copy src dst)) = ⊥
NotPacked (did (rename src dst)) = ⊥
NotPacked (made_temp path) = Unit
NotPacked (reported name sum) = ⊥

runs : (c : Command) → NotPacked (ran c)
runs c = tt

true-ne-false : ◌≢◌ {A = Bool} true false
true-ne-false e = cc

module _ (os : Os) (md5 : Md5) (args : Main.Args) where
  packed_or_not :
      (fpm : Option String) (output : Main.BuildOutput)
      → EmitsOn NotPacked false (
          if is_some fpm
          then (do
            packages ← package_build os (Main.package_args args) output
            for_each packages (Main.report_package os md5)
            pure true)
          else pure false)
  packed_or_not none output = EmitsOn-Emits _ _ _ (Emits-pure _ _)
  packed_or_not (some path) output =
      EmitsOn-Avoids _ _ _
        (Avoids-bind _ _ _ λ packages. Avoids-bind _ _ _ λ u. Avoids-pure false true true-ne-false)

  -- Where no packages could be made, none were.
  make_packages-EmitsOn :
      (output : Main.BuildOutput) → EmitsOn NotPacked false (Main.make_packages os md5 args output)
  unfolding Main.make_packages
  make_packages-EmitsOn output =
      EmitsOn-if _ _ args.package_output _ _
        (EmitsOn-bind _ _ _ _ (check_path_for-Emits _ os "fpm") λ fpm. packed_or_not fpm output)
        (EmitsOn-Emits _ _ _ (Emits-pure _ _))

  finish-cases :
      (branch : String) (output : Main.BuildOutput) (packed : Bool)
      → (EmitsOn NotPacked packed (Main.make_packages os md5 args output)
          × EmitsOn NotPacked 1 (Main.finish os md5 branch packed))
        ⊎ Avoids 1 (Main.finish os md5 branch packed)
  unfolding Main.finish
  finish-cases branch output true = inr (Avoids-bind _ _ _ λ u. Avoids-pure 1 0 (omega arith))
  finish-cases branch output false =
      inl (make_packages-EmitsOn output, EmitsOn-Emits _ _ _ (Emits-pure _ _))

  after_builds-EmitsOn :
      (branch : String) (built : Option Main.BuildOutput)
      → EmitsOn NotPacked 1 (Main.after_builds os md5 args branch built)
  unfolding Main.after_builds
  after_builds-EmitsOn branch none = EmitsOn-Emits _ _ _ (Emits-pure _ _)
  after_builds-EmitsOn branch (some output) = EmitsOn-bind_by _ _ _ _ (finish-cases branch output)

  after_dependencies-EmitsOn :
      (branch : String) (ready : Bool)
      → EmitsOn NotPacked 1 (Main.after_dependencies os md5 args branch ready)
  unfolding Main.after_dependencies
  after_dependencies-EmitsOn branch true =
      EmitsOn-bind _ _ _ _
        (build_all-Emits _ runs (λ path. tt) (λ path. tt) os args λ single platform arch h. tt)
        λ built. after_builds-EmitsOn branch built
  after_dependencies-EmitsOn branch false = EmitsOn-Emits _ _ _ (Emits-pure _ _)

  after_checkout-EmitsOn :
      (branch : String) (moved : Bool)
      → EmitsOn NotPacked 1 (Main.after_checkout os md5 args branch moved)
  unfolding Main.after_checkout
  after_checkout-EmitsOn branch true =
      EmitsOn-bind _ _ _ _ (dependencies-Emits _ runs os args)
        λ ready. after_dependencies-EmitsOn branch ready
  after_checkout-EmitsOn branch false = EmitsOn-Emits _ _ _ (Emits-pure _ _)

  after_questions-EmitsOn :
      (commit branch : String)
      → EmitsOn NotPacked 1 (Main.after_questions os md5 args commit branch)
  unfolding Main.after_questions Main.main_build
  after_questions-EmitsOn commit branch =
      EmitsOn-if _ _ _ _ _ (EmitsOn-Emits _ _ _ (Emits-raise _ _)) (
        EmitsOn-bind _ _ _ _ (checkout-Emits _ runs os args commit branch)
          λ moved. after_checkout-EmitsOn branch moved)

  after_prereqs-EmitsOn :
      (found : Bool) → EmitsOn NotPacked 1 (Main.after_prereqs os md5 args found)
  unfolding Main.after_prereqs
  after_prereqs-EmitsOn true =
      EmitsOn-bind _ _ _ _ (get_current_commit-Emits _ runs os true) λ commit.
        EmitsOn-bind _ _ _ _ (get_current_branch-Emits _ runs os)
          λ branch. after_questions-EmitsOn commit branch
  after_prereqs-EmitsOn false = EmitsOn-Emits _ _ _ (Emits-pure _ _)

  after_version-EmitsOn : EmitsOn NotPacked 1 (Main.after_version os md5 args)
  unfolding Main.after_version check_prereqs
  after_version-EmitsOn =
      EmitsOn-bind _ _ _ _ (check_each-Emits _ os prereqs) λ found. after_prereqs-EmitsOn found

-- In every environment and for all arguments: where `main` returns 1, no file was copied, renamed or
-- marked, and no package reported.
pub main-NotPacked :
    (os : Os) (md5 : Md5) (args : Main.Args) (t : Trace)
    → (Main.main os md5 args t).0 ≡ returned 1
    → Adds NotPacked t (Main.main os md5 args t).1
unfolding Main.main
main-NotPacked os md5 args =
    (EmitsOn-if NotPacked 1 (args.release && args.nightly) _ _
      (EmitsOn-Emits _ _ _ (Emits-pure _ _))
      (EmitsOn-bind _ _ _ _ (nightly_args-Emits _ os args)
        λ args'. after_version-EmitsOn os md5 args')).at
