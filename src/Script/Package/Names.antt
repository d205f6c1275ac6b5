-- ===== src/Script/Package/Names.antt =====
-- build.py, `package`: the names of packages, and what is read from the output of fpm.
use Prim.Native.Char.{code}
use influxdb_relay.Base.{Bool, String, ◌<>◌, Option, none, some, if◌then◌else◌, ◌||◌, ◌==◌}
use influxdb_relay.Base.Text.{drop_prefix, contains, replace}
use influxdb_relay.Script.{package_name}
use text.Mathlib.Text.{◌==◌ as str_eq}

-- The arguments of `package` besides `build_output`; `release` is not used.
pub record PackageArgs : Type 0 where
  pub version : String
  pub nightly : Bool
  pub iteration : String
  pub static : Bool
  pub release : Bool

unfoldable pub is_static : PackageArgs → String → Bool
is_static args arch = args.static || contains "static_" arch

-- Whether the package is only the binary and its configuration.
unfoldable pub is_flat : PackageArgs → String → String → Bool
is_flat args platform arch = str_eq platform "windows" || is_static args arch

unfoldable pub package_arch : String → String
package_arch arch = if contains "static_" arch then replace arch "static_" "" else arch

unfoldable pub archive_name : PackageArgs → String → String → String
archive_name args platform arch =
    package_name
    <> (if args.nightly
        then (if is_static args arch then "-static-nightly_" else "-nightly_")
        else "-"
          <> args.version
          <> "-"
          <> args.iteration
          <> (if is_static args arch then "-static_" else "_"))
    <> platform
    <> "_"
    <> package_arch arch

-- The text up to the last double quote of its first line.
unfoldable pub up_to_quote : String → Option String
up_to_quote String.[] = none
up_to_quote (String.◌∷◌ c s) =
    let later = up_to_quote s in
    if code c == 10 then none else elim later [
      | some group ↦ some (String.◌∷◌ c group)
      | none ↦ if code c == b'"' then some "" else none
    ]

abbrev group_after : Option String → Option String
group_after none = none
group_after (some rest) = up_to_quote rest

abbrev or_else : Option String → Option String → Option String
or_else none later = later
or_else (some group) later = some group

-- The group of `re.search(':path=>"(.*)"', out)`.
unfoldable pub search_output : String → Option String
unfolding drop_prefix up_to_quote
search_output String.[] = none
search_output (String.◌∷◌ c s) =
    or_else (group_after (drop_prefix ":path=>\"" (String.◌∷◌ c s))) (search_output s)

-- The new name of what fpm wrote. An rpm has its version's dashes changed to underscores first.
unfoldable pub strip_output : PackageArgs → String → String → String
strip_output args package_type outfile =
    if args.nightly
    then replace outfile (args.version <> "-" <> args.iteration) "nightly"
    else let version =
        if str_eq package_type "rpm" then replace args.version "-" "_" else args.version in
      replace outfile (version <> "-" <> args.iteration) version
