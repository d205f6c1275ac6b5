-- ===== src/Relay/Config.antt =====
-- relay/config.go, and what relay/http.go, relay/udp.go and relay/relay.go make of a configuration. The
-- TOML library fills the records. A duration is in nanoseconds and has a sign, and so has a number
-- of the file.
pub mod Make
pub mod Laws
pub mod Backends
use influxdb_relay.Base.{
  ℕ, zero, suc, ◌*◌, ◌<>◌, String, Bool, true, false, not, ◌&&◌, ◌||◌, Option, none, some, List, [],
  ◌∷◌, ◌++◌, if◌then◌else◌, ltb, ◌%◌, ◌-◌,
}
use influxdb_relay.Base.Decimal.{ℤ, pos, negsuc}
use text.Mathlib.Text.{◌==◌ as str_eq}

pub record HttpOutputConfig : Type 0 where
  pub name : String
  pub location : String
  pub timeout : String
  pub buffer_size_mb : ℤ
  pub max_batch_kb : ℤ
  pub max_delay_interval : String
  pub skip_tls_verification : Bool

pub record HttpConfig : Type 0 where
  pub name : String
  pub addr : String
  pub ssl_combined_pem : String
  pub default_retention_policy : String
  pub outputs : List HttpOutputConfig

pub record UdpOutputConfig : Type 0 where
  pub name : String
  pub location : String
  pub mtu : ℤ

pub record UdpConfig : Type 0 where
  pub name : String
  pub addr : String
  pub precision : String
  pub read_buffer : ℤ
  pub outputs : List UdpOutputConfig

pub record Config : Type 0 where
  pub http_relays : List HttpConfig
  pub udp_relays : List UdpConfig

abbrev pub default_http_timeout : ℤ
default_http_timeout = pos 10000000000

abbrev pub default_max_delay_interval : ℤ
default_max_delay_interval = pos 10000000000

abbrev pub default_batch_size_kb : ℕ
default_batch_size_kb = 512

abbrev pub kb : ℕ
kb = 1024

abbrev pub mb : ℕ
mb = 1024 * kb

-- The arguments of newRetryBuffer.
pub record RetrySettings : Type 0 where
  pub size : ℤ
  pub batch : ℤ
  pub max_interval : ℤ

pub record HttpBackend : Type 0 where
  pub name : String
  pub location : String
  pub timeout : ℤ
  pub skip_tls_verification : Bool
  pub retry : Option RetrySettings

pub record HttpRelay : Type 0 where
  pub addr : String
  pub name : String
  pub schema : String
  pub cert : String
  pub rp : String
  pub backends : List HttpBackend

pub record UdpRelay : Type 0 where
  pub addr : String
  pub name : String
  pub precision : String
  pub backends : List UdpOutputConfig

pub data Relay : Type 0 where
  http : HttpRelay → Relay
  udp : UdpRelay → Relay

-- What an int holds of a product: `limit` is 2 ^ 31 or 2 ^ 63, by the platform, and it wraps around at
-- 2 * limit.
unfoldable pub to_int : ℕ → ℕ → ℤ
to_int limit n =
    let r = n % (2 * limit) in if ltb r limit then pos r else negsuc (2 * limit - 1 - r)

-- `int_limit` is one more than the greatest int. time.ParseDuration, and the sockets of package net: whether an address is listened on after
-- others, whether a socket takes a read buffer, whether one for sending is had, and whether a location is found.
pub record Environment : Type 0 where
  pub int_limit : ℕ
  pub parse_duration : String → Option ℤ
  pub listens : List String → String → Bool
  pub sets_read_buffer : ℤ → Bool
  pub sends : Bool
  pub resolves : String → Bool
