-- ===== src/Script/Repo.antt =====
-- build.py: what the script asks git, and `go_get`.
pub mod Laws
use influxdb_relay.Base.{Bool, true, false, String, Option, if◌then◌else◌, ◌==◌, ◌||◌, ◌&&◌, not}
use influxdb_relay.Base.Text.{strip, strip_by}
use influxdb_relay.Os.{Os, M, pure, ◌>>=◌, or_raise, attribute_error}
use influxdb_relay.Script.Shell.{run}
use text.Mathlib.Text.{◌==◌ as str_eq}

abbrev pub commit_command : Bool → String
commit_command true = "git log --pretty=format:'%h' -n 1"
commit_command false = "git rev-parse HEAD"

abbrev pub branch_command : String
branch_command = "git rev-parse --abbrev-ref HEAD"

module _ (os : Os) where
  unfoldable pub get_current_version_tag : M (Option String)
  get_current_version_tag = run os "git describe --always --tags --abbrev=0" false false

  -- The quotes that git prints around the hash are stripped.
  unfoldable pub get_current_commit : Bool → M String
  get_current_commit short = do
    out ← run os (commit_command short) false false
    text ← or_raise out attribute_error
    pure (strip_by (λ c. c == b'\'' || c == 10 || c == 13 || c == 32) text)

  unfoldable pub get_current_version : M String
  get_current_version = get_current_commit true

  unfoldable pub get_current_branch : M String
  get_current_branch = do
    out ← run os branch_command false false
    text ← or_raise out attribute_error
    pure (strip text)

  unfoldable pub local_changes : M Bool
  local_changes = do
    out ← run os "git diff-files --ignore-submodules --" false false
    text ← or_raise out attribute_error
    pure (not (str_eq (strip text) ""))

  -- `branch` and `update` are not used.
  unfoldable pub go_get : String → Bool → Bool → M Bool
  go_get branch update no_uncommitted = do
    changed ← local_changes
    pure (if changed && no_uncommitted then false else true)
