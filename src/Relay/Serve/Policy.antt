-- ===== src/Relay/Serve/Policy.antt =====
-- The retention policy that ServeHTTP fills in.
use influxdb_relay.Base.{
  String, false, ◌&&◌, ◌≡◌, refl, [], ◌∷◌, if◌then◌else◌, inl, inr, arith, eq_iff, Bool-cases,
}
use influxdb_relay.Relay.Serve.{Values, get, del, set, with_policy}
use text.Mathlib.Text.{◌==◌ as str_eq}

get-del :
    (key other : String) (ps : Values)
    → str_eq other key ≡ false
    → get key (del other ps) ≡ get key ps
unfolding get del
get-del key other [] h = refl
get-del key other ((k, v) ∷ ps) h = elim (Bool-cases (str_eq k other)) [
  | inl e ↦
      let same : str_eq k key ≡ false =
        ground (arith, eq_iff k other, eq_iff k key, eq_iff other key) in
      rw (e, same, get-del key other ps h) refl
  | inr e ↦ rw (e, get-del key other ps h) refl
]

get-set :
    (key other value : String) (ps : Values)
    → get key (set other value ps) ≡ (if str_eq other key then value else get key ps)
unfolding get set
get-set key other value ps = elim (Bool-cases (str_eq other key)) [
  | inl e ↦ rw e refl
  | inr e ↦ rw (e, get-del key other ps e) refl
]

-- After the policy was filled in, every parameter has the value that the client gave, but an `rp` which it
-- gave none or an empty value has the relay's default.
pub with_policy-get :
    (rp : String) (params : Values) (key : String)
    → get key (with_policy rp params)
      ≡ (if str_eq "rp" key && str_eq (get "rp" params) "" then rp else get key params)
unfolding with_policy
with_policy-get rp params key =
    ground (
      arith,
      get-set key "rp" rp params,
      eq_iff "rp" key,
      eq_iff (get "rp" params) "",
      eq_iff rp "",
    )
