-- ===== src/Script/GoList.antt =====
-- build.py: `go_list`.
pub mod Laws
use Prim.Native.Char.{code}
use influxdb_relay.Base.{Bool, true, false, String, List, [], ◌∷◌, if◌then◌else◌}
use influxdb_relay.Base.Text.{contains, replace, split}
use influxdb_relay.Os.{Os, M, pure, ◌>>=◌, ◌>>◌, or_raise, asks, tell, listed, os_error}
use influxdb_relay.Script.{package_url}
use text.Mathlib.Text.{◌==◌ as str_eq}

-- `if packages[-1] == '': packages = packages[:-1]`
unfoldable pub drop_last_empty : List String → List String
drop_last_empty [] = []
drop_last_empty (p ∷ []) = if str_eq p "" then [] else p ∷ []
drop_last_empty (p ∷ q ∷ packages) = p ∷ drop_last_empty (q ∷ packages)

unfoldable pub non_vendor : List String → List String
non_vendor [] = []
non_vendor (p ∷ packages) =
    let rest = non_vendor packages in if contains "/vendor/" p then rest else p ∷ rest

unfoldable pub relative_packages : List String → List String
relative_packages [] = []
relative_packages (p ∷ packages) =
    let rest = relative_packages packages in
    let r = replace p package_url "." in if str_eq r "." then rest else r ∷ rest

-- What `go list` printed, as the packages to return.
unfoldable pub packages_of : Bool → Bool → String → List String
packages_of vendor relative out =
    let packages = drop_last_empty (split "\n" out) in
    let kept = if vendor then packages else non_vendor packages in
    if relative then relative_packages kept else kept

module _ (os : Os) where
  unfoldable pub go_list : Bool → Bool → M (List String)
  go_list vendor relative = do
    let command = "go" ∷ "list" ∷ "./..." ∷ []
    answer ← asks (λ t. os.popen t command)
    out ← or_raise answer os_error
    tell (listed command)
    pure (packages_of vendor relative out)
