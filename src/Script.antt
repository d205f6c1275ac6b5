-- ===== src/Script.antt =====
-- build.py, the build and packaging script. This file has its constants, and `os.path.join` of
-- Python's posixpath; the children have its functions. A dict is a list of pairs in written order.
pub mod Paths
pub mod Quiet
pub mod Shell
pub mod Version
pub mod Repo
pub mod Host
pub mod GoList
pub mod Tree
pub mod Target
pub mod Digest
pub mod Package
pub mod Main
use influxdb_relay.Base.{
  Bool, true, false, String, ◌<>◌, List, [], ◌∷◌, ◌==◌, if◌then◌else◌, Option, none, some,
}
use influxdb_relay.Base.Text.{drop_prefix}
use Prim.Native.Char.{code}
use text.Mathlib.Text.{◌==◌ as str_eq}

abbrev pub package_name : String
package_name = "influxdb-relay"

abbrev pub install_root_dir : String
install_root_dir = "/usr/bin"

abbrev pub log_dir : String
log_dir = "/var/log/influxdb-relay"

abbrev pub data_dir : String
data_dir = "/var/lib/influxdb-relay"

abbrev pub script_dir : String
script_dir = "/usr/lib/influxdb-relay/scripts"

abbrev pub config_dir : String
config_dir = "/etc/influxdb-relay"

abbrev pub logrotate_dir : String
logrotate_dir = "/etc/logrotate.d"

abbrev pub init_script : String
init_script = "scripts/init.sh"

abbrev pub systemd_script : String
systemd_script = "scripts/influxdb-relay.service"

abbrev pub postinst_script : String
postinst_script = "scripts/post-install.sh"

abbrev pub postuninst_script : String
postuninst_script = "scripts/post-uninstall.sh"

abbrev pub logrotate_script : String
logrotate_script = "scripts/logrotate"

abbrev pub default_config : String
default_config = "sample.toml"

abbrev pub configuration_files : List String
configuration_files =
    "/etc/influxdb-relay/influxdb-relay.conf" ∷ "/etc/logrotate.d/influxdb-relay" ∷ []

abbrev pub package_license : String
package_license = "MIT"

abbrev pub package_url : String
package_url = "https://github.com/influxdata/influxdb-relay"

abbrev pub description : String
description = "Service to replicate InfluxDB data for high availability."

abbrev pub prereqs : List String
prereqs = "git" ∷ "go" ∷ []

add_config_files : String → List String → String
add_config_files args [] = args
add_config_files args (f ∷ files) = add_config_files (args <> " --config-files " <> f) files

-- Line 44 continues the text over lines 45 to 51 with no space of its own.
unfoldable pub fpm_common_args : String
unfolding add_config_files
fpm_common_args =
    add_config_files
      ("-f -s dir --log error --url " <> package_url <> " --after-install " <> postinst_script
        <> " --after-remove " <> postuninst_script <> " --license " <> package_license
        <> " --directories " <> log_dir <> " --directories " <> data_dir <> " --description \""
        <> description <> "\"")
      configuration_files

abbrev pub targets : List (String × String)
targets = ("influxdb-relay", "./main.go") ∷ []

abbrev pub supported_builds : List (String × List String)
supported_builds = ("darwin", "amd64" ∷ []) ∷ ("linux", "amd64" ∷ "static_amd64" ∷ []) ∷ []

abbrev pub supported_packages : List (String × List String)
supported_packages = ("darwin", "tar" ∷ []) ∷ ("linux", "deb" ∷ "rpm" ∷ "tar" ∷ []) ∷ []

-- A dict's `get`.
unfoldable pub lookup {ℓ} : {V : Type ℓ} → String → List (String × V) → Option V
lookup k [] = none
lookup k ((j, v) ∷ d) = if str_eq j k then some v else lookup k d

-- `d[k] = v`, and so a call of `d.update({k: v})`.
unfoldable pub insert {ℓ} : {V : Type ℓ} → String → V → List (String × V) → List (String × V)
insert k v [] = (k, v) ∷ []
insert k v ((j, w) ∷ d) = if str_eq j k then (j, v) ∷ d else (j, w) ∷ insert k v d

-- `s[1:]`
abbrev pub after_first : String → String
after_first String.[] = String.[]
after_first (String.◌∷◌ c s) = s

abbrev pub is_absolute : String → Bool
is_absolute String.[] = false
is_absolute (String.◌∷◌ c s) = code c == b'/'

unfoldable pub ends_in_slash : String → Bool
ends_in_slash String.[] = false
ends_in_slash (String.◌∷◌ c String.[]) = code c == b'/'
ends_in_slash (String.◌∷◌ c (String.◌∷◌ d s)) = ends_in_slash (String.◌∷◌ d s)

-- `a + b` where `os.path.join` needs no slash between.
abbrev pub is_open : String → Bool
is_open String.[] = true
is_open (String.◌∷◌ c s) = ends_in_slash (String.◌∷◌ c s)

-- `os.path.join(a, b)`; with more arguments it is `join_path (join_path a b) c`.
unfoldable pub join_path : String → String → String
unfolding ends_in_slash
join_path a b = if is_absolute b then b else if is_open a then a <> b else a <> ("/" <> b)
