-- ===== src/Base/Text/Chars.antt =====
-- `strip` and `split` on a text whose characters are known.
use Prim.Native.Char.{code}
use Prim.Native.Char.{Char}
use Prim.Native.Nat.{ℕ}
use Prim.Native.String.{String, ◌++◌ as ◌<>◌}
use mathlib.Core.Bool.{false≢true, true, Bool, false}
use mathlib.Core.List.{[], ◌∷◌}
use mathlib.Core.Logic.{inl, inr}
use mathlib.Core.Option.{Option, none, some, none-ne-some}
use mathlib.Core.Path.{sym, subst, ◌≡◌, refl}
use native.Mathlib.Omega.{arith}
use text.Mathlib.TextLemmas.{nil-append, cons-append}
use influxdb_relay.Base.Text.Laws.{contains-cons}
use influxdb_relay.Base.Tests.{is_some, ==_iff, Bool-cases, ◌==◌}
use influxdb_relay.Base.Text.{
  drop_prefix, contains, strip_left, strip_right, strip_by, keep_char, split,
}

-- `P` holds of the code of every character.
abbrev pub AllChars : (ℕ → Type 0) → String → Type 0
AllChars P String.[] = Unit
AllChars P (String.◌∷◌ c s) = P (code c) × AllChars P s

pub AllChars-mono :
    (P R : ℕ → Type 0) → ((c : ℕ) → P c → R c) → (s : String) → AllChars P s → AllChars R s
AllChars-mono P R h String.[] a = tt
AllChars-mono P R h (String.◌∷◌ c s) a = (h (code c) a.0, AllChars-mono P R h s a.1)

module _ (drops : ℕ → Bool) where
  strip_left_all : (s : String) → AllChars (λ c. drops c ≡ false) s → strip_left drops s ≡ s
  unfolding strip_left
  strip_left_all String.[] a = refl
  strip_left_all (String.◌∷◌ c s) a = rw (a.0)

  keep_char_kept :
      (c : Char) (s : String) → drops (code c) ≡ false → keep_char drops c s ≡ String.◌∷◌ c s
  keep_char_kept c String.[] h = rw h
  keep_char_kept c (String.◌∷◌ d s) h = refl

  strip_right_all : (s : String) → AllChars (λ c. drops c ≡ false) s → strip_right drops s ≡ s
  unfolding strip_right
  strip_right_all String.[] a = refl
  strip_right_all (String.◌∷◌ c s) a = rw (strip_right_all s a.1) (keep_char_kept c s a.0)

  -- A text of characters to keep is left alone.
  pub strip_by_all : (s : String) → AllChars (λ c. drops c ≡ false) s → strip_by drops s ≡ s
  unfolding strip_by
  strip_by_all s a = rw (strip_right_all s a) (strip_left_all s a)

module _ (sep : Char) where
  abbrev pub Other : ℕ → Type 0
  Other c = (c == code sep) ≡ false

  pub split_none : (s : String) → AllChars Other s → split sep s ≡ s ∷ []
  unfolding split
  split_none String.[] a = refl
  split_none (String.◌∷◌ c s) a = rw (a.0, split_none s a.1)

  -- The first part ends at the first separator.
  pub split-append :
      (s t : String) → AllChars Other s → split sep (s <> String.◌∷◌ sep t) ≡ s ∷ split sep t
  unfolding split
  split-append String.[] t a = rw nil-append (ground arith)
  split-append (String.◌∷◌ c s) t a = rw cons-append (rw (a.0, split-append s t a.1))

drop_prefix-AllChars :
    (P : ℕ → Type 0) (p s rest : String) → drop_prefix p s ≡ some rest → AllChars P s → AllChars P p
unfolding drop_prefix
drop_prefix-AllChars P String.[] s rest h a = tt
drop_prefix-AllChars P (String.◌∷◌ c p) String.[] rest h a = absurd (none-ne-some rest h)
drop_prefix-AllChars P (String.◌∷◌ c p) (String.◌∷◌ d s) rest h a =
    elim (Bool-cases (code c == code d)) [
      | inl e ↦
          ((subst P (sym ((==_iff _ _).0 e)) a.0), drop_prefix-AllChars P p s rest (rw e at h) a.1)
      | inr e ↦ absurd (none-ne-some rest (rw e at h))
    ]

is_some-AllChars :
    (P : ℕ → Type 0) (p s : String) (o : Option String)
    → drop_prefix p s ≡ o
    → is_some o ≡ true
    → AllChars P s
    → AllChars P p
is_some-AllChars P p s none e h a = absurd (false≢true h)
is_some-AllChars P p s (some rest) e h a = drop_prefix-AllChars P p s rest e a

-- What is contained in a text has no other characters than the text.
pub contains-AllChars :
    (P : ℕ → Type 0) (p s : String) → contains p s ≡ true → AllChars P s → AllChars P p
contains-AllChars P p String.[] h a = is_some-AllChars P p String.[] _ refl (contains_nil p h) a
  where
    contains_nil :
        (p : String) → contains p String.[] ≡ true → is_some (drop_prefix p String.[]) ≡ true
    contains_nil p h = unfold contains in h
contains-AllChars P p (String.◌∷◌ c s) h a =
    elim (Bool-cases (is_some (drop_prefix p (String.◌∷◌ c s)))) [
      | inl e ↦ is_some-AllChars P p (String.◌∷◌ c s) _ refl e a
      | inr e ↦ contains-AllChars P p s (rw (contains-cons p c s, e) at h) a.1
    ]
