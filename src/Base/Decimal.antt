-- ===== src/Base/Decimal.antt =====
-- Python's `int(text)` and `str(number)`, for texts of ASCII digits with a sign and spaces around.
pub mod Laws
use Prim.Native.Char.{Char, code}
use influxdb_relay.Base.Text.{strip}
use Prim.Native.Nat.{ℕ, zero, suc, ◌+◌, ◌-◌, ◌*◌, ◌/◌, ◌%◌}
use Prim.Native.String.{String, ◌++◌ as ◌<>◌}
use mathlib.Core.Bool.{Bool, ◌&&◌}
use mathlib.Core.Option
use mathlib.Core.Option.{Option, none, some}
use influxdb_relay.Base.Tests.{leb, ◌==◌, if◌then◌else◌}

-- `negsuc n` is -(n + 1).
pub data ℤ : Type 0 where
  pos : ℕ → ℤ
  negsuc : ℕ → ℤ

unfoldable pub add_one : ℤ → ℤ
add_one (pos n) = pos (suc n)
add_one (negsuc zero) = pos 0
add_one (negsuc (suc n)) = negsuc n

abbrev negate : ℕ → ℤ
negate zero = pos 0
negate (suc n) = negsuc n

abbrev is_digit : ℕ → Bool
is_digit c = leb b'0' c && leb c b'9'

-- The number whose digits so far give `acc`, read on over `s`.
unfoldable pub digits_value : ℕ → String → Option ℕ
digits_value acc String.[] = some acc
digits_value acc (String.◌∷◌ c s) =
    let rest = digits_value (acc * 10 + (code c - b'0')) s in
    if is_digit (code c) then rest else none

unfoldable pub natural : String → Option ℕ
unfolding digits_value
natural String.[] = none
natural (String.◌∷◌ c s) = digits_value 0 (String.◌∷◌ c s)

unfoldable pub signed : String → Option ℤ
unfolding natural
signed String.[] = none
signed (String.◌∷◌ c s) =
    if code c == b'-'
    then Option.map negate (natural s)
    else Option.map pos (natural (if code c == b'+' then s else String.◌∷◌ c s))

unfoldable pub int : String → Option ℤ
unfolding signed strip
int s = signed (strip s)

unfoldable pub digit : ℕ → Char
digit zero = "0"
digit (suc zero) = "1"
digit (suc (suc zero)) = "2"
digit (suc (suc (suc zero))) = "3"
digit (suc (suc (suc (suc zero)))) = "4"
digit (suc (suc (suc (suc (suc zero))))) = "5"
digit (suc (suc (suc (suc (suc (suc zero)))))) = "6"
digit (suc (suc (suc (suc (suc (suc (suc zero))))))) = "7"
digit (suc (suc (suc (suc (suc (suc (suc (suc zero)))))))) = "8"
digit _ = "9"

-- The digits of `n` in front of `rest`. One round of fuel serves a digit.
unfoldable pub show_onto : ℕ → ℕ → String → String
unfolding digit
show_onto zero n rest = rest
show_onto (suc fuel) n rest =
    let more = show_onto fuel (n / 10) (String.◌∷◌ (digit (n % 10)) rest) in
    if n / 10 == 0 then String.◌∷◌ (digit (n % 10)) rest else more

unfoldable pub show : ℕ → String
unfolding show_onto
show n = show_onto (suc n) n String.[]

unfoldable pub str : ℤ → String
unfolding show
str (pos n) = show n
str (negsuc n) = "-" <> show (suc n)
