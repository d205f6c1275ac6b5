-- ===== src/Script/GoList/Laws.antt =====
-- The packages that `go_list` returns.
use influxdb_relay.Base.{
  String, Bool, true, false, List, [], ◌∷◌, All, ◌≡◌, refl, ap, sym, inl, inr, Bool-cases, arith,
}
use influxdb_relay.Base.Text.{contains, split}
use influxdb_relay.Base.Text.Laws.{replace-absent}
use influxdb_relay.Script.{package_url}
use influxdb_relay.Script.GoList.{drop_last_empty, non_vendor, relative_packages, packages_of}
use text.Mathlib.Text.{◌==◌ as str_eq}
use mathlib.Core.List.{filter}
use mathlib.Core.Bool.{Bool-discrete, false≢true}
use influxdb_relay.Base.Text.Chars.{AllChars, Other, contains-AllChars}

-- An import path as `go list` prints it: no colon, and not the text ".".
abbrev pub IsImportPath : String → Type 0
IsImportPath p = AllChars (Other ":") p × (str_eq p "." ≡ false)

url_has_colon : ¬ AllChars (Other ":") package_url
url_has_colon a = false≢true (sym (a.1.1.1.1.1.0))

lacks_url : (p : String) → AllChars (Other ":") p → contains package_url p ≡ false
lacks_url p a = elim (Bool-cases (contains package_url p)) [
  | inl e ↦ absurd (url_has_colon (contains-AllChars (Other ":") package_url p e a))
  | inr e ↦ e
]

relative_packages-import_paths :
    (packages : List String) → All IsImportPath packages → relative_packages packages ≡ packages
unfolding relative_packages
relative_packages-import_paths [] h = refl
relative_packages-import_paths (p ∷ packages) h =
    rw (replace-absent p package_url "." (lacks_url p h.0.0), h.0.1)
      (ap (◌∷◌ p) (relative_packages-import_paths packages h.1))

non_vendor-All :
    (P : String → Type 0) (packages : List String)
    → All P packages
    → All (λ p. P p × (contains "/vendor/" p ≡ false)) (non_vendor packages)
unfolding non_vendor
non_vendor-All P [] h = tt
non_vendor-All P (p ∷ packages) h = elim (Bool-cases (contains "/vendor/" p)) [
  | inl e ↦ rw e (non_vendor-All P packages h.1)
  | inr e ↦ rw e ((h.0, e), non_vendor-All P packages h.1)
]

All-mono :
    (P Q : String → Type 0) → ((p : String) → P p → Q p) → (ps : List String) → All P ps → All Q ps
All-mono P Q f [] h = tt
All-mono P Q f (p ∷ ps) h = (f p h.0, All-mono P Q f ps h.1)

-- `relative=True` strips nothing: the package URL begins with "https://", and no import path has
-- a colon, so the result is the same as without it.
pub packages_of-relative :
    (vendor : Bool) (out : String)
    → All IsImportPath (drop_last_empty (split "\n" out))
    → packages_of vendor true out ≡ packages_of vendor false out
unfolding packages_of
packages_of-relative true out h = relative_packages-import_paths _ h
packages_of-relative false out h =
    relative_packages-import_paths _ (All-mono _ _ (λ p k. k.0) _ (non_vendor-All IsImportPath _ h))

non_vendor-filter :
    (ps : List String)
    → non_vendor ps ≡ filter (λ p. Bool-discrete (contains "/vendor/" p) false) ps
unfolding non_vendor
non_vendor-filter [] = refl
non_vendor-filter (p ∷ ps) = ground (arith, non_vendor-filter ps)

-- Without `vendor` the packages are those that `go list` printed, in its order, less those that
-- have "/vendor/" in their path.
pub packages_of-non_vendor :
    (out : String)
    → packages_of false false out
      ≡ filter (λ p. Bool-discrete (contains "/vendor/" p) false) (drop_last_empty (split "\n" out))
unfolding packages_of
packages_of-non_vendor out = non_vendor-filter (drop_last_empty (split "\n" out))
