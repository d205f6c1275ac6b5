-- ===== src/Tests/Build.antt =====
-- Runs of build.py on the machine of `World`.
use influxdb_relay.Base.{
  ◌≢◌, sym, subst, ◌∙◌, ℕ, String, ◌||◌, true, false, Option, none, some, List, [], ◌∷◌, ◌≡◌, refl,
}
use influxdb_relay.Base.Text.{replace, contains, strip, strip_by, words, split, join}
use influxdb_relay.Base.Decimal.{int, str, add_one}
use influxdb_relay.Os.{
  Os, Trace, Event, ran, did, reported, argv, rmtree, Outcome, returned, raised, ◌>>=◌, asks, tell,
  or_raise, raise, sys_exit, perform, mkdtemp, for_each, try_finally, name_error,
}
use influxdb_relay.Os.Keeps.{Adds}
use influxdb_relay.Script.{join_path, lookup, insert, fpm_common_args}
use influxdb_relay.Script.Shell.{run, run_result, create_temp_dir}
use influxdb_relay.Script.Repo.{get_current_branch, get_current_commit, local_changes, go_get}
use influxdb_relay.Script.Host.{
  get_go_version, search_go_version, first_executable, check_path_for, check_each, check_prereqs,
}
use influxdb_relay.Script.Version.{increment_minor_version, increment_parts}
use influxdb_relay.Script.Tree.{make_dir, create_package_fs, install, package_scripts, file_name}
use influxdb_relay.Script.Target.{
  handle_static, go_arch, go_arm, ld_flags, tag_flags, clean_outdir, compile, build_target,
  build_targets, build,
}
use influxdb_relay.Script.Digest.{update_chunks, digest, generate_md5_from_file}
use influxdb_relay.Script.Package.Names.{
  is_static, is_flat, package_arch, archive_name, search_output, strip_output,
}
use influxdb_relay.Script.Package.{
  copy_binary, pack_archive, rename_output, pack_fpm, pack_type, pack_types, lay_out,
  package_arch_dir, package_archs, package_platforms, package_build,
}
use influxdb_relay.Script.Main.{
  Args, main, nightly_args, checkout, dependencies, build_archs, build_platforms, build_all,
  return_to, report_package, make_packages, finish, after_builds, after_dependencies,
  after_checkout, main_build, after_questions, after_prereqs, after_version,
}
use influxdb_relay.Script.Main.Laws.{IsOn, IsGit, main_release_and_nightly}
use influxdb_relay.Script.Main.Failure.{NotPacked, main-NotPacked}
use influxdb_relay.Script.Main.Branch.{at_question, IsBack, main-IsBack}
use text.Mathlib.Text.{◌==◌}
use influxdb_relay.Tests.World.{machine, strokes, machine-IsGit, respond}

abbrev nightly_linux : Args
nightly_linux = record {
  outdir = "/work/build";
  arch = "all";
  platform = "linux";
  branch = "dev";
  commit = "a1b2c3d";
  version = "1.2.3";
  iteration = "1";
  nightly = true;
  package_output = true;
  release = false;
  clean = true;
  no_get = false;
  no_uncommitted = true;
  build_tags = none;
  static = false;
}

run_main : Args → Outcome ℕ × Trace
unfolding main nightly_args checkout dependencies build_archs build_platforms build_all return_to
    report_package make_packages finish after_builds after_dependencies after_checkout main_build
    after_questions after_prereqs after_version copy_binary pack_archive rename_output pack_fpm
    pack_type pack_types lay_out package_arch_dir package_archs package_platforms package_build
    is_static is_flat package_arch archive_name search_output strip_output update_chunks digest
    generate_md5_from_file handle_static go_arch go_arm ld_flags tag_flags clean_outdir compile
    build_target build_targets build make_dir create_package_fs install package_scripts file_name
    increment_minor_version increment_parts int str add_one get_go_version search_go_version
    first_executable check_path_for check_each check_prereqs get_current_branch get_current_commit
    local_changes go_get run run_result create_temp_dir join_path lookup insert fpm_common_args
    ◌>>=◌ asks tell or_raise raise sys_exit perform mkdtemp for_each try_finally replace contains
    strip strip_by words split join respond
run_main args = main machine strokes args []

abbrev head_of : Trace → Option Event
head_of [] = none
head_of (e ∷ t) = some e

-- What the run reports, newest first.
reports : Trace → List (String × String)
reports [] = []
reports (reported name sum ∷ t) = (name, sum) ∷ reports t
reports (_ ∷ t) = reports t

removals : Trace → List String
removals [] = []
removals (did (rmtree path) ∷ t) = path ∷ removals t
removals (_ ∷ t) = removals t

-- A nightly build of both Linux architectures: a deb, an rpm and a tar of the one, and a tar of the
-- static one; the repository ends on the branch where it began.
nightly_run :
    ((run_main nightly_linux).0 ≡ returned 0)
    × (head_of (run_main nightly_linux).1 ≡ some (ran (argv ("git" ∷ "checkout" ∷ "master" ∷ []))))
    × (reports (run_main nightly_linux).1
        ≡ ("influxdb-relay-static-nightly_linux_amd64.tar.gz", "--")
          ∷ ("influxdb-relay-nightly_linux_amd64.tar.gz", "--")
          ∷ ("influxdb-relay_1.2.0-1_amd64.deb", "--")
          ∷ ("influxdb-relay_1.2.0-1_amd64.deb", "--")
          ∷ [])
unfolding run_main reports
nightly_run = (refl, refl, refl)

returned_zero : (main machine strokes nightly_linux []).0 ≡ returned 0
unfolding run_main
returned_zero = refl

-- `main` finds "master".
found_master : IsOn machine "master" (at_question machine nightly_linux [])
unfolding run_main
found_master = refl

IsGit-found :
    (branch : String)
    → IsOn machine branch (at_question machine nightly_linux [])
    → branch ≢ "HEAD"
    → IsGit machine branch
IsGit-found branch on ne =
    let master : "master" ≡ branch = named (sym found_master ∙ on) in
    subst (IsGit machine) master machine-IsGit
  where
    named : {a b : String} → ◌≡◌ {A = Outcome String} (returned a) (returned b) → a ≡ b
    named e = cc

main-IsBack_example : IsBack machine nightly_linux [] (main machine strokes nightly_linux []).1
main-IsBack_example = main-IsBack machine strokes nightly_linux [] IsGit-found returned_zero

abbrev windows : Args
windows = record nightly_linux { platform = "windows"; nightly = false }

-- With the message's NameError.
name_raised : (main machine strokes windows []).0 ≡ raised name_error
unfolding run_main
name_raised = refl

-- A release and a nightly build at once.
both_refused : main machine strokes (record nightly_linux { release = true }) [] ≡ (returned 1, [])
both_refused = main_release_and_nightly machine strokes _ [] refl refl

-- Without fpm everything is built, and `main` returns 1.
abbrev no_fpm : Os
no_fpm = record machine { is_file = λ t p. p == "/bin/git" || p == "/bin/go" }

unpacked : (main no_fpm strokes nightly_linux []).0 ≡ returned 1
unfolding run_main
unpacked = refl

main-NotPacked_example : Adds NotPacked [] (main no_fpm strokes nightly_linux []).1
main-NotPacked_example = main-NotPacked no_fpm strokes nightly_linux [] unpacked

abbrev cleaning : Args
cleaning = record nightly_linux { clean = true; package_output = true }

-- It removes the output directory of each architecture, and the temporary directory.
cleaned_up :
    removals (main machine strokes cleaning []).1
    ≡ "/tmp/influxdb-relay-build." ∷ "/work/build/linux/static_amd64" ∷ "/work/build/linux/amd64"
      ∷ []
unfolding run_main removals
cleaned_up = refl
