-- ===== src/Script/Target/Effects.antt =====
-- What `build` does to its surroundings: commands, directories that it makes, and the output directory
-- that it may remove.
use influxdb_relay.Base.{String, Bool, true, not, ◌&&◌, Option, none, some, List, [], ◌∷◌, ◌≡◌}
use influxdb_relay.Os.{Os, Event, Command, ran, did, made_temp, makedirs, rmtree, M}
use influxdb_relay.Os.Keeps.{Emits, emits_rules, Emits-bind, Emits-pure}
use influxdb_relay.Script.Shell.{create_temp_dir}
use influxdb_relay.Script.Quiet.{
  run-Emits, get_current_branch-Emits, get_current_commit-Emits, get_go_version-Emits,
}
use influxdb_relay.Script.Target.{
  BuildArgs, Choice, clean_outdir, compile, build_targets, build, go_on,
}
use text.Mathlib.Text.{◌==◌ as str_eq}

module _ (Q : Event → Type 0) (runs : (c : Command) → Q (ran c))
    (makes : (path : String) → Q (did (makedirs path)))
    (temps : (path : String) → Q (made_temp path)) (os : Os) (args : BuildArgs)
    (removes : (args.clean && not (str_eq args.outdir "/") && not (str_eq args.outdir ".")) ≡ true
      → Q (did (rmtree args.outdir))) where
  clean_outdir-Emits : Emits Q (clean_outdir os args)
  unfolding clean_outdir
  clean_outdir-Emits = search (emits_rules, removes, makes) depth 10

  compile-Emits :
      (target path : String) (c : Choice) (prefix : String)
      → Emits Q (compile os args target path c prefix)
  unfolding compile
  compile-Emits target path c prefix =
      search
        (
          emits_rules, runs, run-Emits, get_current_branch-Emits, get_current_commit-Emits,
          get_go_version-Emits,
        )
        depth 12

  go_on-Emits :
      (o : Option String) (f : String → M Bool)
      → ((prefix : String) → Emits Q (f prefix))
      → Emits Q (go_on os args o f)
  go_on-Emits none f h = Emits-pure _ _
  go_on-Emits (some prefix) f h = h prefix

  build_targets-Emits :
      (ts : List (String × String)) (c : Choice) → Emits Q (build_targets os args ts c)
  unfolding build_targets
  build_targets-Emits [] c = Emits-pure _ _
  build_targets-Emits ((target, path) ∷ ts) c =
      go_on-Emits _ _ λ prefix.
        Emits-bind _ _ _ (compile-Emits target path _ prefix) λ _. build_targets-Emits ts _

  pub build-Emits : Emits Q (build os args)
  unfolding build create_temp_dir
  build-Emits =
      search
        (
          emits_rules, runs, temps, get_go_version-Emits, get_current_branch-Emits,
          get_current_commit-Emits, clean_outdir-Emits, build_targets-Emits,
        )
        depth 12
