-- ===== src/Script/Paths.antt =====
-- `os.path.join` of relative parts stays below its first argument.
use influxdb_relay.Base.{
  ◌==◌, ◌&&◌, ◌||◌, Bool, ◌≢◌, true, false, String, ◌<>◌, ◌≡◌, refl, arith, if◌then◌else◌, ap, ◌∙◌,
  sym,
}
use influxdb_relay.Script.{join_path, is_absolute, is_open, ends_in_slash}
use Prim.Native.Char.{Char, code}
use text.Mathlib.TextLemmas.{
  cons-ne-nil, append-ne-nil_of_right_ne-nil, append-nil, nil-append, cons-append, append_assoc,
}

abbrev is_dot : Char → Bool
is_dot c = code c == b'.'

-- Two dots in a row, the first of which may stand before the text.
abbrev pub has_dots : Bool → String → Bool
has_dots after_dot String.[] = false
has_dots after_dot (String.◌∷◌ c s) = (is_dot c && after_dot) || has_dots (is_dot c) s

-- A relative path with no `..` in it, so that it leads nowhere above its start.
abbrev pub IsPlain : String → Type 0
IsPlain a = (is_absolute a ≡ false) × (has_dots false a ≡ false)

-- `path` is `root` with such a path joined to it.
pub record IsUnder (root path : String) : Type 0 where
  pub rest : String
  pub plain : IsPlain rest
  pub joined : path ≡ join_path root rest

pub IsUnder-join_path : (root a : String) → IsPlain a → IsUnder root (join_path root a)
IsUnder-join_path root a h = record { rest = a; plain = h; joined = refl }

abbrev ends_in_dot : Bool → String → Bool
ends_in_dot after_dot String.[] = after_dot
ends_in_dot after_dot (String.◌∷◌ c s) = ends_in_dot (is_dot c) s

has_dots-append :
    (k : Bool) (a b : String) → has_dots k (a <> b) ≡ (has_dots k a || has_dots (ends_in_dot k a) b)
has_dots-append k String.[] b = rw nil-append refl
has_dots-append k (String.◌∷◌ c a) b =
    rw (cons-append c a b) (ground (arith, has_dots-append (is_dot c) a b))

has_dots-slash : (k : Bool) (b : String) → has_dots k ("/" <> b) ≡ has_dots false b
has_dots-slash k b = has_dots-append k "/" b

pub has_dots-dash : (k : Bool) (b : String) → has_dots k ("-" <> b) ≡ has_dots false b
has_dots-dash k b = has_dots-append k "-" b

pub has_dots-versioned :
    (name version iteration : String)
    → has_dots false name ≡ false
    → (has_dots false version ≡ false) × (has_dots false iteration ≡ false)
    → has_dots false (name <> "-" <> version <> "-" <> iteration) ≡ false
has_dots-versioned name v i n h = simp (
  has_dots-append false name ("-" <> v <> "-" <> i),
  n,
  has_dots-dash (ends_in_dot false name) (v <> "-" <> i),
  has_dots-append false v ("-" <> i),
  h.0,
  has_dots-dash (ends_in_dot false v) i,
  h.1,
)

ends_in_dot-slash : (k : Bool) (a : String) → ends_in_slash a ≡ true → ends_in_dot k a ≡ false
unfolding ends_in_slash
ends_in_dot-slash k String.[] h = ground arith
ends_in_dot-slash k (String.◌∷◌ c String.[]) h = ground arith
ends_in_dot-slash k (String.◌∷◌ c (String.◌∷◌ d a)) h =
    ends_in_dot-slash (is_dot c) (String.◌∷◌ d a) h

ends_in_dot-open : (a : String) → is_open a ≡ true → ends_in_dot false a ≡ false
ends_in_dot-open String.[] h = refl
ends_in_dot-open (String.◌∷◌ c a) h = ends_in_dot-slash false (String.◌∷◌ c a) h

ends_in_slash-cons :
    (c : Char) (s : String) → s ≢ String.[] → ends_in_slash (String.◌∷◌ c s) ≡ ends_in_slash s
unfolding ends_in_slash
ends_in_slash-cons c String.[] h = absurd (h refl)
ends_in_slash-cons c (String.◌∷◌ d s) h = refl

ends_in_slash-append :
    (r : String) (c d : Char) (a : String)
    → ends_in_slash (String.◌∷◌ c r <> String.◌∷◌ d a) ≡ ends_in_slash (String.◌∷◌ d a)
unfolding ends_in_slash
ends_in_slash-append String.[] c d a = rw (cons-append, nil-append)
ends_in_slash-append (String.◌∷◌ b r) c d a =
    ap ends_in_slash (cons-append c (String.◌∷◌ b r) (String.◌∷◌ d a))
    ∙ ends_in_slash-cons c _ (append-ne-nil_of_right_ne-nil (String.◌∷◌ b r) (cons-ne-nil d a))
    ∙ ends_in_slash-append r b d a

is_open-cons-append :
    (c : Char) (r a : String) → is_open (String.◌∷◌ c r <> a) ≡ ends_in_slash (String.◌∷◌ c r <> a)
is_open-cons-append c r a = rw (cons-append c r a)

is_open-append : (r a : String) → is_open r ≡ true → is_open (r <> a) ≡ is_open a
is_open-append String.[] a h = rw nil-append
is_open-append (String.◌∷◌ c r) String.[] h = rw append-nil h
is_open-append (String.◌∷◌ c r) (String.◌∷◌ d a) h =
    is_open-cons-append c r _ ∙ ends_in_slash-append r c d a

is_open-append_slash : (r a : String) → is_open (r <> ("/" <> a)) ≡ is_open a
unfolding ends_in_slash
is_open-append_slash r a =
    ap is_open (sym (append_assoc r "/" a)) ∙ is_open-append (r <> "/") a (open_after r)
  where
    open_after : (r : String) → is_open (r <> "/") ≡ true
    open_after String.[] = refl
    open_after (String.◌∷◌ c r) =
        is_open-cons-append c r "/" ∙ ends_in_slash-append r c "/" String.[]

join_path-relative :
    (a b : String)
    → is_absolute b ≡ false
    → join_path a b ≡ (if is_open a then a <> b else a <> ("/" <> b))
unfolding join_path
join_path-relative a b h = rw h

is_absolute-append :
    (a b : String) → is_absolute a ≡ false → is_absolute b ≡ false → is_absolute (a <> b) ≡ false
is_absolute-append String.[] b ha hb = rw nil-append hb
is_absolute-append (String.◌∷◌ c a) b ha hb = rw cons-append ha

pub is_absolute-cons-append :
    (c : Char) (a b : String)
    → is_absolute (String.◌∷◌ c a) ≡ false
    → is_absolute (String.◌∷◌ c a <> b) ≡ false
is_absolute-cons-append c a b h = rw (cons-append c a b) h

join_path-is_absolute :
    (a b : String)
    → is_absolute a ≡ false
    → is_absolute b ≡ false
    → is_absolute (join_path a b) ≡ false
join_path-is_absolute String.[] b ha hb =
    rw (join_path-relative String.[] b hb) (is_absolute-append String.[] b ha hb)
join_path-is_absolute (String.◌∷◌ c a) b ha hb =
    ground (
      arith,
      join_path-relative (String.◌∷◌ c a) b hb,
      cons-append c a b,
      cons-append c a ("/" <> b),
    )

has_dots-join_path :
    (a b : String)
    → is_absolute b ≡ false
    → has_dots false a ≡ false
    → has_dots false b ≡ false
    → has_dots false (join_path a b) ≡ false
has_dots-join_path a b h da db = ground (
  arith,
  join_path-relative a b h,
  has_dots-append false a b,
  has_dots-append false a ("/" <> b),
  has_dots-slash (ends_in_dot false a) b,
  ends_in_dot-open a,
)

IsPlain-join_path : (a b : String) → IsPlain a → IsPlain b → IsPlain (join_path a b)
IsPlain-join_path a b ha hb =
    (join_path-is_absolute a b ha.0 hb.0, has_dots-join_path a b hb.0 ha.1 hb.1)

-- A path of three parts may be joined from either end.
pub join_path_assoc :
    (r a b : String)
    → is_absolute a ≡ false
    → is_absolute b ≡ false
    → join_path (join_path r a) b ≡ join_path r (join_path a b)
join_path_assoc r a b ha hb = ground (
  arith,
  join_path-relative r a ha,
  join_path-relative (join_path r a) b hb,
  join_path-relative a b hb,
  join_path-relative r (join_path a b) (join_path-is_absolute a b ha hb),
  is_open-append r a,
  is_open-append_slash r a,
  append_assoc r a b,
  append_assoc r a ("/" <> b),
  append_assoc r ("/" <> a) b,
  append_assoc r ("/" <> a) ("/" <> b),
  append_assoc "/" a b,
  append_assoc "/" a ("/" <> b),
)

-- What is joined to a path below the root lies below the root.
pub IsUnder-join_path_of :
    (root path a : String) → IsUnder root path → IsPlain a → IsUnder root (join_path path a)
IsUnder-join_path_of root path a u h = record {
  rest = join_path u.rest a;
  plain = IsPlain-join_path u.rest a u.plain h;
  joined = rw u.joined (join_path_assoc root u.rest a u.plain.0 h.0);
}
