-- ===== src/Tests/Package.antt =====
-- `package`, the layout of its files and the digest of build.py: the theorems at concrete data.
use mathlib.Core.List.{append-nil, append_assoc}
use influxdb_relay.Base.{String, true, false, some, List, [], ◌∷◌, ◌≡◌, refl, if◌then◌else◌}
use influxdb_relay.Base.Text.{split}
use influxdb_relay.Os.{did, made_temp, rmtree, raised, os_error}
use influxdb_relay.Os.Keeps.{Emits}
use influxdb_relay.Script.Host.{check_path_for}
use influxdb_relay.Script.Host.Laws.{Finds, check_path_for-Finds}
use influxdb_relay.Script.Target.{BuildArgs, build}
use influxdb_relay.Script.Target.Laws.{RemovesOnly, build-RemovesOnly}
use influxdb_relay.Script.Digest.{IsIncremental, digest}
use influxdb_relay.Script.Digest.Laws.{digest-update}
use influxdb_relay.Script.Package.Names.{PackageArgs}
use influxdb_relay.Script.Package.{package_platforms, package_build}
use influxdb_relay.Script.Package.Cleanup.{package_build-removes_temp}
use influxdb_relay.Tests.World.{machine, strokes}

abbrev temp : String
temp = "/tmp/influxdb-relay-build."

abbrev release_args : PackageArgs
release_args = record {
  version = "1.2.0";
  nightly = false;
  iteration = "1";
  static = false;
  release = true;
}

abbrev output : List (String × List (String × String))
output = ("linux", ("amd64", "/work/build") ∷ []) ∷ []

package_build-removes_temp_example :
    let (o, u) = package_platforms machine release_args temp output (made_temp temp ∷ []) in
    ((package_build machine release_args output []).1 ≡ did (rmtree temp) ∷ u)
    × ((package_build machine release_args output []).0
        ≡ (if machine.fails u (rmtree temp) then raised os_error else o))
package_build-removes_temp_example =
    package_build-removes_temp machine release_args output [] temp refl

abbrev clean_args : BuildArgs
clean_args = record {
  version = "1.2.0";
  platform = "linux";
  arch = "static_amd64";
  nightly = false;
  clean = true;
  outdir = "/work/build";
  tags = [];
  static = false;
}

build-RemovesOnly_example : Emits (RemovesOnly clean_args) (build machine clean_args)
build-RemovesOnly_example = build-RemovesOnly machine clean_args

strokes-IsIncremental : IsIncremental strokes
strokes-IsIncremental = record {
  update-nil = λ s. append-nil s;
  update-append = λ s a b. append_assoc s a b;
}

digest-update_example : digest strokes (1 ∷ 2 ∷ 3 ∷ []) ≡ some "---"
digest-update_example = digest-update strokes strokes-IsIncremental (1 ∷ 2 ∷ 3 ∷ [])

check_path_for-Finds_example :
    Finds machine [] "go" (split ":" "/usr:/bin") (check_path_for machine "go" [])
check_path_for-Finds_example = check_path_for-Finds machine [] "go" "/usr:/bin" refl
