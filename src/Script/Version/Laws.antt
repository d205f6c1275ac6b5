-- ===== src/Script/Version/Laws.antt =====
-- What `increment_minor_version` returns.
use Prim.Native.String.{String, ◌++◌ as ◌<>◌}
use text.Mathlib.TextLemmas.{nil-append, cons-append}
use influxdb_relay.Base.{ℕ, suc, ◌≡◌, ◌≢◌, refl, List, [], ◌∷◌, length, arith, ap, ◌∙◌}
use influxdb_relay.Base.Text.{split, join}
use influxdb_relay.Base.Text.Chars.{AllChars, AllChars-mono, Other, split_none, split-append}
use influxdb_relay.Base.Decimal.{add_one, show, show_onto, str}
use influxdb_relay.Base.Decimal.Laws.{IsDigit, show-IsDigit, int-show}
use influxdb_relay.Os.{Trace, returned, ◌>>=◌, or_raise}
use influxdb_relay.Script.Version.{increment_parts, increment_minor_version}

digit_no_dot : (c : ℕ) → IsDigit c → Other "." c
digit_no_dot c h = ground arith

dot : (s : String) → "." <> s ≡ String.◌∷◌ "." s
dot s = cons-append "." String.[] s ∙ ap (String.◌∷◌ ".") (nil-append s)

split_three :
    (major minor patch : String)
    → AllChars (Other ".") major
    → AllChars (Other ".") minor
    → AllChars (Other ".") patch
    → split "." (major <> "." <> minor <> "." <> patch) ≡ major ∷ minor ∷ patch ∷ []
split_three major minor patch hj hi hp =
    rw (dot patch, dot (minor <> String.◌∷◌ "." patch), split-append "." major _ hj)
      (rw (split-append "." minor patch hi, split_none "." patch hp))

increment_parts-three :
    (version major patch : String) (minor : ℕ) (t : Trace)
    → increment_parts version (major ∷ show minor ∷ patch ∷ []) t
      ≡ (returned (major <> "." <> show (suc minor) <> ".0"), t)
unfolding increment_parts ◌>>=◌ or_raise join add_one str show_onto
increment_parts-three version major patch minor t = rw (int-show minor)

-- A version of three parts whose second part is a number gets that number plus one, and 0 for the
-- third part. The other parts are any texts with no dot.
pub increment_minor_version-three :
    (major patch : String) (minor : ℕ) (t : Trace)
    → AllChars (Other ".") major
    → AllChars (Other ".") patch
    → increment_minor_version (major <> "." <> show minor <> "." <> patch) t
      ≡ (returned (major <> "." <> show (suc minor) <> ".0"), t)
unfolding increment_minor_version
increment_minor_version-three major patch minor t hj hp =
    rw
      (split_three major (show minor) patch hj
        (AllChars-mono IsDigit (Other ".") digit_no_dot (show minor) (show-IsDigit minor)) hp)
      (parts (major <> "." <> show minor <> "." <> patch))
  where
    parts :
        (version : String)
        → increment_parts version (major ∷ show minor ∷ patch ∷ []) t
          ≡ (returned (major <> "." <> show (suc minor) <> ".0"), t)
    parts version = increment_parts-three version major patch minor t

-- A version with another number of parts is returned as it is.
pub increment_minor_version-other :
    (version : String) (t : Trace)
    → length (split "." version) ≢ 3
    → increment_minor_version version t ≡ (returned version, t)
unfolding increment_minor_version increment_parts
increment_minor_version-other version t h = other (split "." version) h
  where
    other :
        (parts : List String)
        → length parts ≢ 3
        → increment_parts version parts t ≡ (returned version, t)
    other [] h = refl
    other (a ∷ []) h = refl
    other (a ∷ b ∷ []) h = refl
    other (a ∷ b ∷ c ∷ []) h = absurd (h refl)
    other (a ∷ b ∷ c ∷ d ∷ rest) h = refl
