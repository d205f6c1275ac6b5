-- ===== src/Script/Host.antt =====
-- build.py: the machine that the script runs on, and the programs that it needs.
pub mod Laws
use Prim.Native.Char.{code}
use influxdb_relay.Base.{
  Bool, true, false, String, Option, none, some, List, [], ◌∷◌, if◌then◌else◌, ◌==◌, ◌&&◌, is_some,
}
use influxdb_relay.Base.Text.{strip, strip_by, is_blank, drop_prefix, contains, split}
use influxdb_relay.Os.{Os, M, pure, ◌>>=◌, or_raise, asks, type_error, key_error}
use influxdb_relay.Script.{join_path, prereqs}
use influxdb_relay.Script.Shell.{run}
use text.Mathlib.Text.{◌==◌ as str_eq}

unfoldable pub system_arch : String → String
unfolding contains
system_arch arch =
    if str_eq arch "x86_64"
    then "amd64"
    else if str_eq arch "386"
    then "i386"
    else if contains "arm" arch
    then "arm"
    else arch

unfoldable pub system_platform : String → String
unfolding drop_prefix
system_platform platform = if is_some (drop_prefix "linux" platform) then "linux" else platform

-- The longest beginning that has no blank.
unfoldable pub word_of : String → String
unfolding is_blank
word_of String.[] = String.[]
word_of (String.◌∷◌ c s) =
    let rest = word_of s in if is_blank (code c) then String.[] else String.◌∷◌ c rest

-- A word of at least one character, or what `later` finds.
abbrev pub or_later : Option String → Option String → Option String
or_later none later = later
or_later (some String.[]) later = later
or_later (some (String.◌∷◌ c s)) later = some (String.◌∷◌ c s)

abbrev pub word_after : String → String → Option String
word_after prefix s = elim (drop_prefix prefix s) [ none ↦ none | some rest ↦ some (word_of rest) ]

-- The group of `re.search('go version go(\S+)', s)`.
unfoldable pub search_go_version : String → Option String
unfolding drop_prefix word_of
search_go_version String.[] = none
search_go_version (String.◌∷◌ c s) =
    or_later (word_after "go version go" (String.◌∷◌ c s)) (search_go_version s)

module _ (os : Os) where
  unfoldable pub get_system_arch : M String
  get_system_arch = pure (system_arch os.machine)

  unfoldable pub get_system_platform : M String
  get_system_platform = pure (system_platform os.platform)

  unfoldable pub get_go_version : M (Option String)
  get_go_version = do
    out ← run os "go version" false false
    text ← or_raise out type_error
    pure (elim (search_go_version text) [ none ↦ none | some version ↦ some (strip version) ])

  unfoldable pub first_executable : List String → String → M (Option String)
  first_executable [] b = pure none
  first_executable (path ∷ paths) b = do
    let full_path = join_path (strip_by (λ c. c == b'"') path) b
    found ← asks (λ t. os.is_file t full_path && os.may_execute t full_path)
    let rest = first_executable paths b
    if found then pure (some full_path) else rest

  unfoldable pub check_path_for : String → M (Option String)
  check_path_for b = do
    path ← or_raise (os.environ "PATH") key_error
    first_executable (split ":" path) b

  unfoldable pub check_each : List String → M Bool
  check_each [] = pure true
  check_each (req ∷ reqs) = do
    found ← check_path_for req
    let rest = check_each reqs
    if is_some found then rest else pure false

  unfoldable pub check_prereqs : M Bool
  check_prereqs = check_each prereqs
