-- ===== src/Script/Tree.antt =====
-- build.py: `create_package_fs` and `package_scripts`, which lay out the files of a package.
pub mod Laws
use influxdb_relay.Base.{Bool, true, false, String, Option, none, some, List, [], ◌∷◌}
use influxdb_relay.Base.Text.{split}
use influxdb_relay.Os.{
  Os, M, pure, ◌>>=◌, ◌>>◌, or_raise, perform, for_each, makedirs, chmod, copyfile, key_error,
}
use influxdb_relay.Script.{
  install_root_dir, log_dir, data_dir, script_dir, config_dir, logrotate_dir, init_script,
  systemd_script, logrotate_script, default_config, after_first, join_path,
}

abbrev pub package_dirs : List String
package_dirs =
    after_first install_root_dir
    ∷ after_first log_dir
    ∷ after_first data_dir
    ∷ after_first script_dir
    ∷ after_first config_dir
    ∷ after_first logrotate_dir
    ∷ []

-- `path.split('/')[1]`; the two scripts that it is called for have such a part.
abbrev second : List String → String
second (x ∷ y ∷ ys) = y
second _ = ""

unfoldable pub file_name : String → String
unfolding split
file_name path = second (split "/" path)

module _ (os : Os) where
  -- The octal modes 0o755 and 0o644.
  unfoldable pub make_dir : String → String → M (Unit {0})
  make_dir build_root d = do
    perform os (makedirs (join_path build_root d))
    perform os (chmod (join_path build_root d) 0o755)

  unfoldable pub create_package_fs : String → M (Unit {0})
  create_package_fs build_root = for_each package_dirs (make_dir build_root)

  -- `shutil.copyfile(source, to)` and `os.chmod(to, 0o644)`.
  unfoldable pub install : String → String → M (Unit {0})
  install source to = do perform os (copyfile source to); perform os (chmod to 0o644)

  unfoldable pub package_scripts : String → Bool → M (Unit {0})
  package_scripts build_root true =
      install default_config (join_path build_root "influxdb-relay.conf")
  package_scripts build_root false = do
    install init_script
        (join_path (join_path build_root (after_first script_dir)) (file_name init_script))
    install systemd_script
        (join_path (join_path build_root (after_first script_dir)) (file_name systemd_script))
    install logrotate_script
        (join_path (join_path build_root (after_first logrotate_dir)) "influxdb-relay")
    install default_config
        (join_path (join_path build_root (after_first config_dir)) "influxdb-relay.conf")
