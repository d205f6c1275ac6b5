-- ===== src/Script/Main/Emits.antt =====
-- What `main` does before it makes packages: commands, directories that it makes, and output directories
-- that it may remove.
use influxdb_relay.Base.{
  String, Bool, not, ◌&&◌, ◌≡◌, true, Option, none, some, List, [], ◌∷◌, is_some,
}
use influxdb_relay.Os.{Os, Event, M, ran, did, made_temp, makedirs, rmtree, Command}
use influxdb_relay.Os.Keeps.{
  Emits, emits_rules, Emits-bind, Emits-pure, Emits-asks, Emits-if, Emits-or_raise,
}
use influxdb_relay.Script.{insert}
use influxdb_relay.Script.Quiet.{run-Emits, local_changes-Emits}
use influxdb_relay.Script.Version.{increment_minor_version, increment_parts}
use influxdb_relay.Script.Repo.{go_get}
use influxdb_relay.Script.Host.{first_executable, check_path_for, check_each}
use influxdb_relay.Script.Target.{build}
use influxdb_relay.Script.Target.Effects.{build-Emits}
use influxdb_relay.Script.Main
use text.Mathlib.Text.{◌==◌ as str_eq}

module _ (Q : Event → Type 0) (os : Os) where
  first_executable-Emits :
      (paths : List String) (b : String) → Emits Q (first_executable os paths b)
  unfolding first_executable
  first_executable-Emits [] b = search emits_rules
  first_executable-Emits (path ∷ paths) b =
      Emits-bind _ _ _ (Emits-asks _ _)
        λ found. Emits-if _ found _ _ (λ e. Emits-pure _ _) (λ e. first_executable-Emits paths b)

  pub check_path_for-Emits : (b : String) → Emits Q (check_path_for os b)
  unfolding check_path_for
  check_path_for-Emits b = search (emits_rules, first_executable-Emits)

  pub check_each-Emits : (reqs : List String) → Emits Q (check_each os reqs)
  unfolding check_each
  check_each-Emits [] = search emits_rules
  check_each-Emits (req ∷ reqs) =
      Emits-bind _ _ _ (check_path_for-Emits req)
        λ found. Emits-if _ (is_some found) _ _ (λ e. check_each-Emits reqs) (λ e. Emits-pure _ _)

  increment_parts-Emits :
      (version : String) (parts : List String) → Emits Q (increment_parts version parts)
  unfolding increment_parts
  increment_parts-Emits version [] = search emits_rules
  increment_parts-Emits version (a ∷ []) = search emits_rules
  increment_parts-Emits version (a ∷ b ∷ []) = search emits_rules
  increment_parts-Emits version (a ∷ b ∷ c ∷ []) = search emits_rules
  increment_parts-Emits version (a ∷ b ∷ c ∷ d ∷ parts) = search emits_rules

  increment_minor_version-Emits : (version : String) → Emits Q (increment_minor_version version)
  unfolding increment_minor_version
  increment_minor_version-Emits version = increment_parts-Emits version _

  pub nightly_args-Emits : (args : Main.Args) → Emits Q (Main.nightly_args os args)
  unfolding Main.nightly_args
  nightly_args-Emits args = search (emits_rules, increment_minor_version-Emits)

module _ (Q : Event → Type 0) (runs : (c : Command) → Q (ran c)) (os : Os) where
  go_get-Emits : (branch : String) (update strict : Bool) → Emits Q (go_get os branch update strict)
  unfolding go_get
  go_get-Emits branch update strict = search (emits_rules, runs, local_changes-Emits)

  pub checkout-Emits :
      (args : Main.Args) (commit branch : String) → Emits Q (Main.checkout os args commit branch)
  unfolding Main.checkout
  checkout-Emits args commit branch = search (emits_rules, runs, run-Emits) depth 12

  pub dependencies-Emits : (args : Main.Args) → Emits Q (Main.dependencies os args)
  unfolding Main.dependencies
  dependencies-Emits args = search (emits_rules, go_get-Emits)

module _ (Q : Event → Type 0) (runs : (c : Command) → Q (ran c))
    (makes : (path : String) → Q (did (makedirs path)))
    (temps : (path : String) → Q (made_temp path)) (os : Os) (args : Main.Args)
    (removes : (single : Bool) (platform arch : String)
      → let od = Main.outdir_of args single platform arch in
        (args.clean && not (str_eq od "/") && not (str_eq od ".")) ≡ true
        → Q (did (rmtree od))) where
  one_build-Emits :
      (single : Bool) (platform arch : String)
      → Emits Q
          (build os (Main.build_args args platform arch (Main.outdir_of args single platform arch)))
  one_build-Emits single platform arch =
      build-Emits Q runs makes temps os
        (Main.build_args args platform arch (Main.outdir_of args single platform arch))
        (removes single platform arch)

  build_archs-Emits :
      (single : Bool) (platform : String) (archs : List String) (dirs : List (String × String))
      → Emits Q (Main.build_archs os args single platform archs dirs)
  unfolding Main.build_archs
  build_archs-Emits single platform [] dirs = search emits_rules
  build_archs-Emits single platform (arch ∷ archs) dirs =
      Emits-bind _ _ _ (one_build-Emits single platform arch) λ done.
        Emits-if _ done _ _ (λ e. build_archs-Emits single platform archs _) (λ e. Emits-pure _ _)

  go_on-Emits :
      {A : Type 0} (o : Option A) (f : A → M (Option Main.BuildOutput))
      → ((a : A) → Emits Q (f a))
      → Emits Q (Main.go_on os o f)
  go_on-Emits none f h = Emits-pure _ _
  go_on-Emits (some a) f h = h a

  build_platforms-Emits :
      (single : Bool) (platforms : List String) (output : Main.BuildOutput)
      → Emits Q (Main.build_platforms os args single platforms output)
  unfolding Main.build_platforms
  build_platforms-Emits single [] output = search emits_rules
  build_platforms-Emits single (platform ∷ platforms) output =
      Emits-bind _ _ _ (Emits-or_raise _ _ _) λ archs.
        Emits-bind _ _ _ (build_archs-Emits _ platform archs []) λ dirs. go_on-Emits dirs _ λ d.
          build_platforms-Emits (single && not (str_eq args.arch "all")) platforms
            (insert platform d output)

  pub build_all-Emits : Emits Q (Main.build_all os args)
  unfolding Main.build_all
  build_all-Emits = search (emits_rules, build_platforms-Emits)
