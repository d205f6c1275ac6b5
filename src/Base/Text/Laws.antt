-- ===== src/Base/Text/Laws.antt =====
-- Laws of the string methods.
use Prim.Native.Char.{Char, code}
use Prim.Native.Nat.{zero, ◌-◌}
use Prim.Native.String.{String, ◌++◌ as ◌<>◌, count}
use mathlib.Core.Bool.{true, false, ◌||◌}
use mathlib.Core.List.{List, [], ◌∷◌}
use mathlib.Core.Logic.{◌≢◌, inl, inr}
use mathlib.Core.Option.{some}
use mathlib.Core.Path.{◌≡◌, refl, ap, ◌∙◌, sym}
use native.Mathlib.Omega.{arith}
use text.Mathlib.TextLemmas.{nil-append, cons-append, length-cons}
use text.Mathlib.TextEquality.{Char-path}
use influxdb_relay.Base.Tests.{◌==◌, ==_iff, is_some, Bool-cases}
use influxdb_relay.Base.Text.{drop_prefix, contains, replace_from, replace, split, join, push_char}

abbrev one_char : Char → String
one_char c = String.◌∷◌ c String.[]

pub contains-cons :
    (p : String) (c : Char) (s : String)
    → contains p (String.◌∷◌ c s) ≡ (is_some (drop_prefix p (String.◌∷◌ c s)) || contains p s)
unfolding contains
contains-cons p c s = refl

-- A text that lacks `old` is left alone.
replace_from-absent :
    (old new s : String) → contains old s ≡ false → replace_from old new zero s ≡ s
unfolding replace_from
replace_from-absent old new String.[] h = refl
replace_from-absent old new (String.◌∷◌ c s) h =
    ground (arith, replace_from-absent old new s, contains-cons old c s)

pub replace-absent : (s old new : String) → contains old s ≡ false → replace s old new ≡ s
unfolding replace
replace-absent s old new h = replace_from-absent old new s h

pub drop_prefix-append : (p s : String) → drop_prefix p (p <> s) ≡ some s
unfolding drop_prefix
drop_prefix-append String.[] s = rw nil-append
drop_prefix-append (String.◌∷◌ c p) s =
    rw (cons-append c p s) (ground (arith, drop_prefix-append p s))

pub contains-prefix : (p s : String) → contains p (p <> s) ≡ true
unfolding contains
contains-prefix String.[] String.[] = refl
contains-prefix String.[] (String.◌∷◌ c s) = rw (nil-append (String.◌∷◌ c s))
contains-prefix (String.◌∷◌ c p) s =
    rw (cons-append c p s)
      (ground (arith, drop_prefix-append (String.◌∷◌ c p) s, cons-append c p s))

replace_from-skip :
    (old new p s : String) → replace_from old new (count p) (p <> s) ≡ replace_from old new zero s
unfolding replace_from
replace_from-skip old new String.[] s = rw nil-append
replace_from-skip old new (String.◌∷◌ c p) s =
    rw (cons-append c p s, length-cons c p) (replace_from-skip old new p s)

drop_prefix-cons :
    (c : Char) (p s : String) → drop_prefix (String.◌∷◌ c p) (String.◌∷◌ c (p <> s)) ≡ some s
drop_prefix-cons c p s = rw (cons-append c p s) at (drop_prefix-append (String.◌∷◌ c p) s)

replace_from-prefix :
    (c : Char) (p s : String)
    → replace_from (String.◌∷◌ c p) String.[] zero (String.◌∷◌ c (p <> s))
      ≡ replace_from (String.◌∷◌ c p) String.[] zero s
unfolding replace_from
replace_from-prefix c p s =
    rw (drop_prefix-cons c p s, replace_from, nil-append)
      (ap (λ n. replace_from (String.◌∷◌ c p) String.[] n (p <> s)) count_left
        ∙ replace_from-skip (String.◌∷◌ c p) String.[] p s)
  where
    count_left : count (String.◌∷◌ c p) - 1 ≡ count p
    count_left = omega (arith, length-cons c p)

-- A prefix that does not come again is cut off.
pub replace-prefix :
    (c : Char) (p s : String)
    → contains (String.◌∷◌ c p) s ≡ false
    → replace (String.◌∷◌ c p <> s) (String.◌∷◌ c p) String.[] ≡ s
unfolding replace
replace-prefix c p s h =
    rw (cons-append c p s)
      (replace_from-prefix c p s ∙ replace_from-absent (String.◌∷◌ c p) String.[] s h)

join-push_char :
    (sep c : Char) (ws : List String)
    → ws ≢ []
    → join (one_char sep) (push_char c ws) ≡ String.◌∷◌ c (join (one_char sep) ws)
unfolding join
join-push_char sep c [] h = refl
join-push_char sep c (w ∷ []) h = refl
join-push_char sep c (w ∷ x ∷ ws) h = cons-append c w _

join-cons :
    (sep : String) (ws : List String) → ws ≢ [] → join sep (String.[] ∷ ws) ≡ sep <> join sep ws
unfolding join
join-cons sep [] h = absurd (h refl)
join-cons sep (w ∷ ws) h = nil-append _

sep-append :
    (sep c : Char) (s t : String)
    → (code c == code sep) ≡ true
    → t ≡ s
    → one_char sep <> t ≡ String.◌∷◌ c s
sep-append sep c s t e h =
    cons-append sep String.[] t
    ∙ ap (String.◌∷◌ sep) (nil-append t ∙ h)
    ∙ ap (λ d. String.◌∷◌ d s) (Char-path sep c (sym ((==_iff _ _).0 e)))

split-ne-nil : (sep : Char) (s : String) → split sep s ≢ []
unfolding split
split-ne-nil sep String.[] h = cc
split-ne-nil sep (String.◌∷◌ c s) h = elim (Bool-cases (code c == code sep)) [
  | inl e ↦ let h' = (rw e at h) in cc
  | inr e ↦ push_char-ne-nil c (split sep s) (rw e at h)
]
  where
    push_char-ne-nil : (c : Char) (ws : List String) → push_char c ws ≢ []
    push_char-ne-nil c [] h = cc
    push_char-ne-nil c (w ∷ ws) h = cc

-- Joining the parts of a text by the separator gives the text back.
pub join-split : (sep : Char) (s : String) → join (one_char sep) (split sep s) ≡ s
unfolding split join
join-split sep String.[] = refl
join-split sep (String.◌∷◌ c s) = elim (Bool-cases (code c == code sep)) [
  | inl e ↦ rw e (
      join-cons (one_char sep) (split sep s) (split-ne-nil sep s)
      ∙ sep-append sep c s _ e (join-split sep s))
  | inr e ↦ rw e (
      join-push_char sep c (split sep s) (split-ne-nil sep s)
      ∙ ap (String.◌∷◌ c) (join-split sep s))
]
