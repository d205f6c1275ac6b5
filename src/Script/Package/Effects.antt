-- ===== src/Script/Package/Effects.antt =====
-- What `package` does to its surroundings, whatever the paths: all but the removal of its temporary directory.
use influxdb_relay.Base.{String, ℕ, Bool, true, false, Option, none, some, List, [], ◌∷◌}
use influxdb_relay.Os.{Os, Event, Command, ran, did, makedirs, chmod, copyfile, copy, rename}
use influxdb_relay.Os.Keeps.{Emits, emits_rules, Emits-bind, Emits-pure}
use influxdb_relay.Script.Quiet.{run-Emits}
use influxdb_relay.Script.Tree.{make_dir, create_package_fs, install, package_scripts}
use influxdb_relay.Script.Package.Names.{PackageArgs}
use influxdb_relay.Script.Package.{
  copy_binary, pack_archive, pack_fpm, rename_output, pack_type, pack_types, lay_out,
  package_arch_dir, package_archs, package_platforms,
}

module _ (Q : Event → Type 0) (runs : (c : Command) → Q (ran c))
    (renames : (source to : String) → Q (did (rename source to))) (os : Os)
    (args : PackageArgs) where
  rename_output-Emits :
      (package_type : String) (o : Option String) → Emits Q (rename_output os args package_type o)
  unfolding rename_output
  rename_output-Emits package_type none = search emits_rules
  rename_output-Emits package_type (some outfile) = search (emits_rules, renames)

  pack_fpm-Emits :
      (root location arch type : String) → Emits Q (pack_fpm os args root location arch type)
  unfolding pack_fpm
  pack_fpm-Emits root location arch type =
      search (emits_rules, run-Emits, runs, rename_output-Emits)

  pack_archive-Emits :
      (root location platform arch tool suffix : String)
      → Emits Q (pack_archive os args root location platform arch tool suffix)
  unfolding pack_archive
  pack_archive-Emits root location platform arch tool suffix = search (emits_rules, run-Emits, runs)

  pack_type-Emits :
      (root location platform arch type : String)
      → Emits Q (pack_type os args root location platform arch type)
  unfolding pack_type
  pack_type-Emits root location platform arch type =
      search (emits_rules, pack_archive-Emits, pack_fpm-Emits)

  pub pack_types-Emits :
      (root location platform arch : String) (types : List String)
      → Emits Q (pack_types os args root location platform arch types)
  unfolding pack_types
  pack_types-Emits root location platform arch [] = search emits_rules
  pack_types-Emits root location platform arch (type ∷ types) =
      Emits-bind _ _ _ (pack_type-Emits root location platform arch type) λ _.
        Emits-bind _ _ _ (pack_types-Emits root location platform arch types) λ _. Emits-pure _ _

  module _ (makes : (path : String) → Q (did (makedirs path)))
      (marks : (path : String) (mode : ℕ) → Q (did (chmod path mode)))
      (fills : (source to : String) → Q (did (copyfile source to)))
      (copies : (source to : String) → Q (did (copy source to))) where
    make_dir-Emits : (root d : String) → Emits Q (make_dir os root d)
    unfolding make_dir
    make_dir-Emits root d = search (emits_rules, makes, marks)

    install-Emits : (source to : String) → Emits Q (install os source to)
    unfolding install
    install-Emits source to = search (emits_rules, fills, marks)

    package_scripts-Emits :
        (root : String) (config_only : Bool) → Emits Q (package_scripts os root config_only)
    unfolding package_scripts
    package_scripts-Emits root true = install-Emits _ _
    package_scripts-Emits root false = search (emits_rules, install-Emits)

    lay_out-Emits : (root platform arch : String) → Emits Q (lay_out os args root platform arch)
    unfolding lay_out create_package_fs
    lay_out-Emits root platform arch = search (emits_rules, package_scripts-Emits, make_dir-Emits)

    copy_binary-Emits :
        (platform arch root location target : String)
        → Emits Q (copy_binary os args platform arch root location target)
    unfolding copy_binary
    copy_binary-Emits platform arch root location target = search (emits_rules, copies)

    package_arch_dir-Emits :
        (tmp platform : String) (a : String × String)
        → Emits Q (package_arch_dir os args tmp platform a)
    unfolding package_arch_dir
    package_arch_dir-Emits tmp platform (arch, location) =
        search (emits_rules, makes, lay_out-Emits, copy_binary-Emits, pack_types-Emits) depth 12

    package_archs-Emits :
        (tmp platform : String) (archs : List (String × String))
        → Emits Q (package_archs os args tmp platform archs)
    unfolding package_archs
    package_archs-Emits tmp platform [] = Emits-pure _ _
    package_archs-Emits tmp platform (a ∷ archs) =
        Emits-bind _ _ _ (package_arch_dir-Emits tmp platform a)
          λ _. Emits-bind _ _ _ (package_archs-Emits tmp platform archs) λ _. Emits-pure _ _

    pub package_platforms-Emits :
        (tmp : String) (output : List (String × List (String × String)))
        → Emits Q (package_platforms os args tmp output)
    unfolding package_platforms
    package_platforms-Emits tmp [] = Emits-pure _ _
    package_platforms-Emits tmp ((platform, archs) ∷ output) =
        Emits-bind _ _ _ (search (emits_rules, makes)) λ _.
          Emits-bind _ _ _ (package_archs-Emits tmp platform archs)
            λ _. Emits-bind _ _ _ (package_platforms-Emits tmp output) λ _. Emits-pure _ _
