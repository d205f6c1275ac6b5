-- ===== src/Script/Shell.antt =====
-- build.py: `run` and `create_temp_dir`. What is logged is left out.
use influxdb_relay.Base.{Bool, true, false, String, Option, none, some, ◌<>◌}
use influxdb_relay.Base.Text.{strip, words}
use influxdb_relay.Os.{
  Os, Command, argv, shell, CommandResult, printed, undecodable, failed, not_started, ran, M, pure,
  raise, sys_exit, ◌>>=◌, ◌>>◌, asks, tell, unicode_error, mkdtemp,
}
use influxdb_relay.Script.{package_name}

-- The `try` statement: what comes of the output, by `allow_failure`.
unfoldable pub run_result : Bool → CommandResult → M (Option String)
run_result allow_failure (printed out) = pure (some (strip out))
run_result allow_failure undecodable = raise unicode_error
run_result true failed = pure none
run_result false failed = sys_exit 1
run_result true not_started = pure none
run_result false not_started = sys_exit 1

abbrev pub command_of : Bool → String → Command
command_of true command = shell command
command_of false command = argv (words command)

module _ (os : Os) where
  unfoldable pub run : String → Bool → Bool → M (Option String)
  run command allow_failure use_shell = do
    result ← asks (λ t. os.check_output t (command_of use_shell command))
    tell (ran (command_of use_shell command))
    run_result allow_failure result

  unfoldable pub create_temp_dir : Option String → M String
  create_temp_dir none = mkdtemp os (package_name <> "-build.")
  create_temp_dir (some prefix) = mkdtemp os prefix
