-- ===== src/Base/Decimal/Laws.antt =====
-- Reading what was printed.
use Prim.Native.Char.{code}
use Prim.Native.Nat.{ℕ, zero, suc, ◌+◌, ◌-◌, ◌*◌, ◌/◌, ◌%◌, ◌<◌, ◌≤◌}
use Prim.Native.String.{String}
use mathlib.Core.Bool.{false}
use mathlib.Core.Logic.{inl, inr, ◌≢◌}
use mathlib.Core.Option.{some}
use mathlib.Core.Path.{◌≡◌, refl, ap, ◌∙◌}
use native.Mathlib.Omega.{arith}
use influxdb_relay.Base.Tests.{◌==◌, Bool-cases}
use influxdb_relay.Base.Text.{strip, is_space}
use influxdb_relay.Base.Text.Chars.{AllChars, AllChars-mono, strip_by_all}
use influxdb_relay.Base.Decimal.{pos, int, signed, digits_value, digit, show, show_onto}

abbrev pub IsDigit : ℕ → Type 0
IsDigit c = (48 ≤ c) × (c ≤ 57)

code-digit : (d : ℕ) → d < 10 → code (digit d) ≡ 48 + d
unfolding digit
code-digit zero h = refl
code-digit (suc zero) h = refl
code-digit (suc (suc zero)) h = refl
code-digit (suc (suc (suc zero))) h = refl
code-digit (suc (suc (suc (suc zero)))) h = refl
code-digit (suc (suc (suc (suc (suc zero))))) h = refl
code-digit (suc (suc (suc (suc (suc (suc zero)))))) h = refl
code-digit (suc (suc (suc (suc (suc (suc (suc zero))))))) h = refl
code-digit (suc (suc (suc (suc (suc (suc (suc (suc zero)))))))) h = refl
code-digit (suc (suc (suc (suc (suc (suc (suc (suc (suc n))))))))) h = omega arith

digits_value-digit :
    (acc d : ℕ) (s : String)
    → d < 10
    → digits_value acc (String.◌∷◌ (digit d) s) ≡ digits_value (acc * 10 + d) s
unfolding digits_value
digits_value-digit acc d s h =
    ground (arith, code-digit d h, ap (λ (k : ℕ). digits_value (acc * 10 + k) s) (back d))
  where
    back : (d : ℕ) → 48 + d - 48 ≡ d
    back d = omega arith

digits_value-show_onto :
    (fuel n : ℕ) (rest : String)
    → n < fuel
    → digits_value 0 (show_onto fuel n rest) ≡ digits_value n rest
unfolding show_onto
digits_value-show_onto zero n rest h = absurd (omega arith)
digits_value-show_onto (suc fuel) n rest h = elim (Bool-cases (n / 10 == 0)) [
  | inl e ↦ rw e (
      digits_value-digit 0 (n % 10) rest (omega arith)
      ∙ ap (λ (k : ℕ). digits_value k rest) (ground arith))
  | inr e ↦ rw e (
      digits_value-show_onto fuel (n / 10) (String.◌∷◌ (digit (n % 10)) rest) (ground arith)
      ∙ digits_value-digit (n / 10) (n % 10) rest (omega arith)
      ∙ ap (λ (k : ℕ). digits_value k rest) (omega arith))
]

show_onto-IsDigit :
    (fuel n : ℕ) (rest : String) → AllChars IsDigit rest → AllChars IsDigit (show_onto fuel n rest)
unfolding show_onto
show_onto-IsDigit zero n rest a = a
show_onto-IsDigit (suc fuel) n rest a = elim (Bool-cases (n / 10 == 0)) [
  | inl e ↦ rw e (last, a)
  | inr e ↦ rw e (show_onto-IsDigit fuel (n / 10) (String.◌∷◌ (digit (n % 10)) rest) (last, a))
]
  where
    last : IsDigit (code (digit (n % 10)))
    last = rw (code-digit (n % 10) (omega arith)) (omega arith)

-- A printed number is made of digits.
pub show-IsDigit : (n : ℕ) → AllChars IsDigit (show n)
unfolding show
show-IsDigit n = show_onto-IsDigit (suc n) n String.[] tt

show_onto-ne-nil :
    (fuel n : ℕ) (rest : String) → rest ≢ String.[] → show_onto fuel n rest ≢ String.[]
unfolding show_onto
show_onto-ne-nil zero n rest h = h
show_onto-ne-nil (suc fuel) n rest h = elim (Bool-cases (n / 10 == 0)) [
  | inl e ↦ rw e (λ x. cc)
  | inr e ↦ rw e (show_onto-ne-nil fuel (n / 10) _ (λ x. cc))
]

show-ne-nil : (n : ℕ) → show n ≢ String.[]
unfolding show show_onto
show-ne-nil n = elim (Bool-cases (n / 10 == 0)) [
  | inl e ↦ rw e (λ x. cc)
  | inr e ↦ rw e (show_onto-ne-nil n (n / 10) _ (λ x. cc))
]

signed-digits :
    (s : String) (n : ℕ)
    → s ≢ String.[]
    → AllChars IsDigit s
    → digits_value 0 s ≡ some n
    → signed s ≡ some (pos n)
unfolding signed
signed-digits String.[] n h a e = absurd (h refl)
signed-digits (String.◌∷◌ c s) n h a e = ground (arith, a.0)

digit_not_space : (c : ℕ) → IsDigit c → is_space c ≡ false
unfolding is_space
digit_not_space c h = ground arith

digits_value-show : (n : ℕ) → digits_value 0 (show n) ≡ some n
unfolding show digits_value
digits_value-show n = digits_value-show_onto (suc n) n String.[] (omega arith)

-- `int(str(n)) == n`
pub int-show : (n : ℕ) → int (show n) ≡ some (pos n)
unfolding int strip
int-show n =
    rw
      (strip_by_all is_space (show n)
        (AllChars-mono IsDigit (λ c. is_space c ≡ false) digit_not_space (show n) (show-IsDigit n)))
      (signed-digits (show n) n (show-ne-nil n) (show-IsDigit n) (digits_value-show n))
