-- ===== src/Script/Package.antt =====
-- build.py: `package`, which packs what `build` wrote. `build_output` maps platforms to maps from
-- architectures to directories. The package names and the commands are functions of their own.
pub mod Names
pub mod Cleanup
pub mod Writes
pub mod Effects
use influxdb_relay.Base.{
  Bool, true, false, String, ◌<>◌, Option, none, some, List, [], ◌∷◌, ◌++◌, if◌then◌else◌, ◌||◌,
}
use influxdb_relay.Base.Text.{contains, replace}
use influxdb_relay.Os.{
  Os, M, pure, ◌>>=◌, ◌>>◌, or_raise, perform, for_each, try_finally, makedirs, copy, rename,
  rmtree, key_error, type_error,
}
use influxdb_relay.Script.{
  package_name, install_root_dir, postinst_script, fpm_common_args, targets, supported_packages,
  lookup, after_first, join_path,
}
use influxdb_relay.Script.Shell.{run, create_temp_dir}
use influxdb_relay.Script.Tree.{create_package_fs, package_scripts}
use influxdb_relay.Script.Target.{binary_name}
use Names.{PackageArgs, is_static, is_flat, package_arch, archive_name, search_output, strip_output}
use text.Mathlib.Text.{◌==◌ as str_eq}

module _ (os : Os) (args : PackageArgs) where
  unfoldable pub copy_binary : String → String → String → String → String → M (Unit {0})
  copy_binary platform arch build_root location target =
      let binary = binary_name platform target in
      perform os (
        copy (join_path location binary) (
          if is_flat args platform arch
          then join_path build_root binary
          else join_path (join_path build_root (after_first install_root_dir)) binary))

  -- "tar" and "zip": the archive is made in the build root and moved to the output directory.
  unfoldable pub pack_archive :
      String → String → String → String → String → String → M (List String)
  pack_archive build_root location platform arch tool suffix = do
    let name = archive_name args platform arch
    let current_location = join_path os.cwd location
    run os ("cd " <> build_root <> " && " <> tool <> " " <> name <> suffix <> " ./*") false true
    run os ("mv " <> join_path build_root name <> suffix <> " " <> current_location) false true
    pure (join_path current_location (name <> suffix) ∷ [])

  abbrev pub fpm_command : String → String → String → String → String
  fpm_command build_root location arch package_type =
      "fpm "
      <> fpm_common_args
      <> " --name "
      <> package_name
      <> " -a "
      <> package_arch arch
      <> " -t "
      <> package_type
      <> " --version "
      <> args.version
      <> " --iteration "
      <> args.iteration
      <> " -C "
      <> build_root
      <> " -p "
      <> location
      <> " "
      <> (if str_eq package_type "rpm"
          then "--depends coreutils --rpm-posttrans " <> postinst_script
          else "")

  -- The file that fpm names is renamed.
  unfoldable pub rename_output : String → Option String → M (List String)
  rename_output package_type none = pure []
  rename_output package_type (some outfile) = do
    perform os (rename outfile (strip_output args package_type outfile))
    pure (join_path os.cwd (strip_output args package_type outfile) ∷ [])

  unfoldable pub pack_fpm : String → String → String → String → M (List String)
  pack_fpm build_root location arch package_type = do
    out ← run os (fpm_command build_root location arch package_type) false true
    text ← or_raise out type_error
    rename_output package_type (search_output text)

  unfoldable pub pack_type : String → String → String → String → String → M (List String)
  pack_type build_root location platform arch package_type =
      if str_eq package_type "tar"
      then pack_archive build_root location platform arch "tar -cvzf" ".tar.gz"
      else if str_eq package_type "zip"
      then pack_archive build_root location platform arch "zip -r" ".zip"
      else if is_static args arch
      then pure []
      else pack_fpm build_root location arch package_type

  unfoldable pub pack_types : String → String → String → String → List String → M (List String)
  pack_types build_root location platform arch [] = pure []
  pack_types build_root location platform arch (package_type ∷ types) = do
    made ← pack_type build_root location platform arch package_type
    more ← pack_types build_root location platform arch types
    pure (made ++ more)

  abbrev pub build_root_of : String → String → String → String
  build_root_of tmp platform arch =
      join_path (join_path (join_path tmp platform) arch)
        (package_name <> "-" <> args.version <> "-" <> args.iteration)

  unfoldable pub lay_out : String → String → String → M (Unit {0})
  lay_out build_root platform arch =
      if is_flat args platform arch
      then package_scripts os build_root true
      else create_package_fs os build_root >> package_scripts os build_root false

  unfoldable pub package_arch_dir : String → String → String × String → M (List String)
  package_arch_dir tmp platform (arch, location) = do
    let build_root = build_root_of tmp platform arch
    perform os (makedirs build_root)
    lay_out build_root platform arch
    for_each targets (λ target. copy_binary platform arch build_root location target.0)
    types ← or_raise (lookup platform supported_packages) key_error
    pack_types build_root location platform arch types

  unfoldable pub package_archs : String → String → List (String × String) → M (List String)
  package_archs tmp platform [] = pure []
  package_archs tmp platform (a ∷ archs) = do
    made ← package_arch_dir tmp platform a
    more ← package_archs tmp platform archs
    pure (made ++ more)

  unfoldable pub package_platforms :
      String → List (String × List (String × String)) → M (List String)
  package_platforms tmp [] = pure []
  package_platforms tmp ((platform, archs) ∷ build_output) = do
    perform os (makedirs (join_path tmp platform))
    made ← package_archs tmp platform archs
    more ← package_platforms tmp build_output
    pure (made ++ more)

  -- The temporary directory is removed however the body ends.
  unfoldable pub package_build : List (String × List (String × String)) → M (List String)
  package_build build_output = do
    tmp_build_dir ← create_temp_dir os none
    try_finally (package_platforms tmp_build_dir build_output) (perform os (rmtree tmp_build_dir))
