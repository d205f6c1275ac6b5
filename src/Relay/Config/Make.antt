-- ===== src/Relay/Config/Make.antt =====
-- relay/http.go, relay/udp.go, relay/relay.go: newHTTPBackend, NewHTTP, NewUDP and New.
use influxdb_relay.Base.{
  ℕ, zero, suc, ◌*◌, ◌<>◌, String, Bool, true, false, not, ◌&&◌, ◌||◌, Option, none, some, List, [],
  ◌∷◌, ◌++◌, if◌then◌else◌,
}
use influxdb_relay.Base.Decimal.{ℤ, pos, negsuc}
use influxdb_relay.Relay.Config.{
  HttpOutputConfig, HttpConfig, UdpOutputConfig, UdpConfig, Config, default_http_timeout,
  default_max_delay_interval, default_batch_size_kb, kb, mb, RetrySettings, HttpBackend, HttpRelay,
  UdpRelay, Relay, http, udp, Environment, to_int,
}
use text.Mathlib.Text.{◌==◌ as str_eq}

abbrev pub or_name : String → String → String
or_name name other = if str_eq name "" then other else name

-- The batch size for a number of KB that is positive, or the default.
unfoldable pub batch_size : ℕ → ℤ → ℤ
batch_size limit (pos zero) = pos (default_batch_size_kb * kb)
batch_size limit (pos (suc n)) = to_int limit (suc n * kb)
batch_size limit (negsuc n) = pos (default_batch_size_kb * kb)

abbrev pub is_zero : ℤ → Bool
is_zero (pos zero) = true
is_zero (pos (suc n)) = false
is_zero (negsuc n) = false

-- The MTU that NewUDP gives a backend.
unfoldable pub udp_mtu : ℤ → ℤ
udp_mtu mtu = if is_zero mtu then pos 1024 else mtu

unfoldable pub new_udp_backend : UdpOutputConfig → UdpOutputConfig
new_udp_backend cfg = record {
  name = or_name cfg.name cfg.location;
  location = cfg.location;
  mtu = udp_mtu cfg.mtu;
}

unfoldable pub add_backend :
    Option HttpBackend → Option (List HttpBackend) → Option (List HttpBackend)
add_backend none bs = none
add_backend (some b) none = none
add_backend (some b) (some bs) = some (b ∷ bs)

unfoldable pub add_udp_backend :
    Bool → UdpOutputConfig → Option (List UdpOutputConfig) → Option (List UdpOutputConfig)
add_udp_backend false b bs = none
add_udp_backend true b none = none
add_udp_backend true b (some bs) = some (b ∷ bs)

-- The relays under their names, in the order of the configuration.
abbrev pub Service : Type 0
Service = List (String × Relay)

-- Why New fails: a relay that cannot be made, by its address, or a name that is taken.
pub data Failure : Type 0 where
  invalid : String → Failure
  duplicate : String → Failure

pub data Result : Type 0 where
  ok : Service → Result
  err : Failure → Result

-- Name
unfoldable pub name_of : Relay → String
name_of (http h) = or_name h.name (h.schema <> "://" <> h.addr)
name_of (udp u) = or_name u.name u.addr

unfoldable pub is_taken : String → Service → Bool
is_taken name [] = false
is_taken name ((n, r) ∷ s) = str_eq n name || is_taken name s

-- What New does with a relay that was made.
unfoldable pub register : Service → Relay → Result
register s r =
    if is_taken (name_of r) s then err (duplicate (name_of r)) else ok (s ++ ((name_of r, r) ∷ []))

unfoldable pub with_interval : ℕ → ℕ → ℤ → Option ℤ → Option (Option RetrySettings)
with_interval limit size_mb batch_kb none = none
with_interval limit size_mb batch_kb (some max) = some (
    some (record {
      size = to_int limit (size_mb * mb);
      batch = batch_size limit batch_kb;
      max_interval = max;
    }))

unfoldable pub with_settings :
    HttpOutputConfig → ℤ → Option (Option RetrySettings) → Option HttpBackend
with_settings cfg timeout none = none
with_settings cfg timeout (some retry) = some (record {
  name = or_name cfg.name cfg.location;
  location = cfg.location;
  timeout = timeout;
  skip_tls_verification = cfg.skip_tls_verification;
  retry = retry;
})

unfoldable pub with_backends : HttpConfig → Option (List HttpBackend) → Option HttpRelay
with_backends cfg none = none
with_backends cfg (some backends) = some (record {
  addr = cfg.addr;
  name = cfg.name;
  schema = if str_eq cfg.ssl_combined_pem "" then "http" else "https";
  cert = cfg.ssl_combined_pem;
  rp = cfg.default_retention_policy;
  backends = backends;
})

unfoldable pub with_udp_backends : UdpConfig → Option (List UdpOutputConfig) → Option UdpRelay
with_udp_backends cfg none = none
with_udp_backends cfg (some backends) =
    some
      (record { addr = cfg.addr; name = cfg.name; precision = cfg.precision; backends = backends })

module _ (sys : Environment) where
  unfoldable pub duration_or : ℤ → String → Option ℤ
  duration_or default text = if str_eq text "" then some default else sys.parse_duration text

  -- Whether there is a retry buffer, and its settings; none is an error.
  unfoldable pub retry_settings : ℤ → ℤ → String → Option (Option RetrySettings)
  retry_settings (pos zero) batch_kb interval = some none
  retry_settings (pos (suc n)) batch_kb interval =
      with_interval sys.int_limit (suc n) batch_kb (duration_or default_max_delay_interval interval)
  retry_settings (negsuc n) batch_kb interval = some none

  unfoldable pub with_timeout : HttpOutputConfig → Option ℤ → Option HttpBackend
  with_timeout cfg none = none
  with_timeout cfg (some timeout) =
      with_settings cfg timeout
        (retry_settings cfg.buffer_size_mb cfg.max_batch_kb cfg.max_delay_interval)

  unfoldable pub new_http_backend : HttpOutputConfig → Option HttpBackend
  new_http_backend cfg = with_timeout cfg (duration_or default_http_timeout cfg.timeout)

  -- The backends, in order, or none at the first error.
  unfoldable pub new_http_backends : List HttpOutputConfig → Option (List HttpBackend)
  new_http_backends [] = some []
  new_http_backends (cfg ∷ cfgs) = add_backend (new_http_backend cfg) (new_http_backends cfgs)

  -- NewHTTP
  unfoldable pub new_http : HttpConfig → Option HttpRelay
  new_http cfg = with_backends cfg (new_http_backends cfg.outputs)

  unfoldable pub new_udp_backends : List UdpOutputConfig → Option (List UdpOutputConfig)
  new_udp_backends [] = some []
  new_udp_backends (cfg ∷ cfgs) =
      add_udp_backend (sys.resolves cfg.location) (new_udp_backend cfg) (new_udp_backends cfgs)

  -- NewUDP, after relays that listen on some addresses.
  unfoldable pub new_udp : List String → UdpConfig → Option UdpRelay
  new_udp bound cfg =
      if not (sys.listens bound cfg.addr)
      then none
      else if not (is_zero cfg.read_buffer) && not (sys.sets_read_buffer cfg.read_buffer)
      then none
      else if not sys.sends
      then none
      else with_udp_backends cfg (new_udp_backends cfg.outputs)

  -- The loop of New over the HTTP relays.
  unfoldable pub add_http_relays : List HttpConfig → Service → Result
  add_http_relays [] s = ok s
  add_http_relays (cfg ∷ cfgs) s = elim (new_http cfg) [
    | none ↦ err (invalid cfg.addr)
    | some h ↦ elim (register s (http h)) [ ok s' ↦ add_http_relays cfgs s' | err f ↦ err f ]
  ]

  -- The loop of New over the UDP relays.
  unfoldable pub add_udp_relays : List String → List UdpConfig → Service → Result
  add_udp_relays bound [] s = ok s
  add_udp_relays bound (cfg ∷ cfgs) s = elim (new_udp bound cfg) [
    | none ↦ err (invalid cfg.addr)
    | some u ↦ elim (register s (udp u)) [
      | ok s' ↦ add_udp_relays (cfg.addr ∷ bound) cfgs s'
      | err f ↦ err f
    ]
  ]

  unfoldable pub after_http : List UdpConfig → Result → Result
  after_http cfgs (ok s) = add_udp_relays [] cfgs s
  after_http cfgs (err f) = err f

  -- New
  unfoldable pub new : Config → Result
  new config = after_http config.udp_relays (add_http_relays config.http_relays [])
