-- ===== src/Script/Main/Defaults.antt =====
-- build.py: the defaults that `main` gives its parser.
use influxdb_relay.Base.{true, false, String, none}
use influxdb_relay.Os.{Os, M, pure, ◌>>=◌}
use influxdb_relay.Script.Repo.{get_current_commit, get_current_branch, get_current_version}
use influxdb_relay.Script.Host.{get_system_arch, get_system_platform}
use influxdb_relay.Script.Main.{Args}

-- The defaults that the parser asks the system for, in the order of `add_argument`. `outdir` is the
-- one that is given: `os.path.abspath` is applied to it.
module _ (os : Os) where
  unfoldable pub default_args : String → M Args
  default_args outdir = do
    arch ← get_system_arch os
    platform ← get_system_platform os
    branch ← get_current_branch os
    commit ← get_current_commit os true
    version ← get_current_version os
    pure (record {
      outdir = outdir;
      arch = arch;
      platform = platform;
      branch = branch;
      commit = commit;
      version = version;
      iteration = "1";
      nightly = false;
      package_output = false;
      release = false;
      clean = false;
      no_get = false;
      no_uncommitted = false;
      build_tags = none;
      static = false;
    })
