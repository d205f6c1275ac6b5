-- ===== src/Base/Text.antt =====
-- The string methods that build.py calls, by recursion on the characters of a text.
pub mod Laws
pub mod Chars
use Prim.Native.Char.{Char, code}
use Prim.Native.Nat.{ℕ, zero, suc, ◌-◌}
use Prim.Native.String.{String, ◌++◌ as ◌<>◌, count}
use mathlib.Core.Bool.{Bool, true, false, ◌||◌, ◌&&◌}
use mathlib.Core.List.{List, [], ◌∷◌}
use mathlib.Core.Option.{Option, none, some}
use influxdb_relay.Base.Tests.{leb, ◌==◌, if◌then◌else◌, is_some}

-- The text after a prefix, if it is one.
unfoldable pub drop_prefix : String → String → Option String
drop_prefix String.[] s = some s
drop_prefix (String.◌∷◌ c p) String.[] = none
drop_prefix (String.◌∷◌ c p) (String.◌∷◌ d s) =
    let rest = drop_prefix p s in if code c == code d then rest else none

-- `p in s`
unfoldable pub contains : String → String → Bool
unfolding drop_prefix
contains p String.[] = is_some (drop_prefix p String.[])
contains p (String.◌∷◌ c s) = is_some (drop_prefix p (String.◌∷◌ c s)) || contains p s

-- `s.replace(old, new)` for an `old` that is not empty: after a hit, `skip` characters of it are left.
unfoldable pub replace_from : String → String → ℕ → String → String
replace_from old new skip String.[] = String.[]
replace_from old new (suc skip) (String.◌∷◌ c s) = replace_from old new skip s
replace_from old new zero (String.◌∷◌ c s) = elim (drop_prefix old (String.◌∷◌ c s)) [
  | some _ ↦ new <> replace_from old new (count old - 1) s
  | none ↦ String.◌∷◌ c (replace_from old new zero s)
]

unfoldable pub replace : String → String → String → String
unfolding replace_from drop_prefix
replace s old new = replace_from old new zero s

abbrev pub push_char : Char → List String → List String
push_char c [] = String.◌∷◌ c String.[] ∷ []
push_char c (w ∷ ws) = String.◌∷◌ c w ∷ ws

-- `s.split(sep)`, for a separator of one character.
unfoldable pub split : Char → String → List String
split sep String.[] = String.[] ∷ []
split sep (String.◌∷◌ c s) =
    let rest = split sep s in if code c == code sep then String.[] ∷ rest else push_char c rest

-- `sep.join(words)`
unfoldable pub join : String → List String → String
join sep [] = String.[]
join sep (w ∷ []) = w
join sep (w ∷ x ∷ ws) = w <> (sep <> join sep (x ∷ ws))

-- The characters that `strip()` takes off a `unicode` text of Python 2.7.
unfoldable pub is_space : ℕ → Bool
is_space c =
    leb 9 c && leb c 13
    || leb 28 c && leb c 32
    || c == 0x85
    || c == 0xa0
    || c == 0x1680
    || c == 0x180e
    || leb 0x2000 c && leb c 0x200a
    || leb 0x2028 c && leb c 0x2029
    || c == 0x202f
    || c == 0x205f
    || c == 0x3000

-- The blanks of a byte string, which `split()` and `\S` go by.
unfoldable pub is_blank : ℕ → Bool
is_blank c = leb 9 c && leb c 13 || c == 32

module _ (drops : ℕ → Bool) where
  unfoldable pub strip_left : String → String
  strip_left String.[] = String.[]
  strip_left (String.◌∷◌ c s) =
      let rest = strip_left s in if drops (code c) then rest else String.◌∷◌ c s

  -- A character goes if it is dropped and all that follows it is.
  abbrev pub keep_char : Char → String → String
  keep_char c String.[] = if drops (code c) then String.[] else String.◌∷◌ c String.[]
  keep_char c (String.◌∷◌ d s) = String.◌∷◌ c (String.◌∷◌ d s)

  unfoldable pub strip_right : String → String
  strip_right String.[] = String.[]
  strip_right (String.◌∷◌ c s) = keep_char c (strip_right s)

  unfoldable pub strip_by : String → String
  unfolding strip_left strip_right
  strip_by s = strip_left (strip_right s)

-- `s.strip()`
unfoldable pub strip : String → String
unfolding strip_by is_space
strip s = strip_by is_space s

-- `s.split()`: the runs of other characters. The flag says that the word before goes on here.
unfoldable pub words_from : String → Bool × List String
words_from String.[] = (false, [])
words_from (String.◌∷◌ c s) =
    let (open_word, ws) = words_from s in
    if is_blank (code c)
    then (false, ws)
    else if open_word
    then (true, push_char c ws)
    else (true, (String.◌∷◌ c String.[]) ∷ ws)

unfoldable pub words : String → List String
unfolding words_from is_blank
words s = (words_from s).1
