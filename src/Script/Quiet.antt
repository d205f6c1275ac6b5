-- ===== src/Script/Quiet.antt =====
-- The parts of build.py that only run commands: a property of events that every command has is kept by them.
use influxdb_relay.Base.{String, Bool, true, false}
use influxdb_relay.Os.{
  Os, Event, Command, ran, CommandResult, printed, undecodable, failed, not_started,
}
use influxdb_relay.Os.Keeps.{Emits, emits_rules}
use influxdb_relay.Script.Shell.{run, run_result}
use influxdb_relay.Script.Repo.{get_current_commit, get_current_branch, local_changes}
use influxdb_relay.Script.Host.{get_go_version}

module _ (Q : Event → Type 0) where
  run_result-Emits : (b : Bool) (r : CommandResult) → Emits Q (run_result b r)
  unfolding run_result
  run_result-Emits true (printed out) = search emits_rules
  run_result-Emits false (printed out) = search emits_rules
  run_result-Emits true undecodable = search emits_rules
  run_result-Emits false undecodable = search emits_rules
  run_result-Emits true failed = search emits_rules
  run_result-Emits false failed = search emits_rules
  run_result-Emits true not_started = search emits_rules
  run_result-Emits false not_started = search emits_rules

  module _ (quiet : (c : Command) → Q (ran c)) (os : Os) where
    pub run-Emits :
        (command : String) (allow use_shell : Bool) → Emits Q (run os command allow use_shell)
    unfolding run
    run-Emits command allow use_shell = search (emits_rules, run_result-Emits, quiet)

    pub get_current_commit-Emits : (short : Bool) → Emits Q (get_current_commit os short)
    unfolding get_current_commit
    get_current_commit-Emits short = search (emits_rules, run-Emits)

    pub get_current_branch-Emits : Emits Q (get_current_branch os)
    unfolding get_current_branch
    get_current_branch-Emits = search (emits_rules, run-Emits)

    pub local_changes-Emits : Emits Q (local_changes os)
    unfolding local_changes
    local_changes-Emits = search (emits_rules, run-Emits)

    pub get_go_version-Emits : Emits Q (get_go_version os)
    unfolding get_go_version
    get_go_version-Emits = search (emits_rules, run-Emits)
