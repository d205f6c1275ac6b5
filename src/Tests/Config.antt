-- ===== src/Tests/Config.antt =====
-- Relays from configurations.
use influxdb_relay.Base.{arith, String, true, false, some, [], ◌∷◌, ◌++◌, ◌≡◌, refl}
use influxdb_relay.Base.Decimal.{pos}
use influxdb_relay.Relay.Config.{
  to_int, HttpOutputConfig, HttpConfig, UdpConfig, Config, RetrySettings, HttpBackend, http, udp,
  Environment,
}
use influxdb_relay.Relay.Config.Make.{
  batch_size, duration_or, with_interval, retry_settings, with_settings, with_timeout,
  new_http_backend, Service, ok, err, duplicate, name_of, is_taken, register, add_backend,
  new_http_backends, with_backends, new_http, udp_mtu, new_udp_backend, add_udp_backend,
  new_udp_backends, with_udp_backends, new_udp, add_http_relays, add_udp_relays, after_http, new,
}
use influxdb_relay.Relay.Config.Laws.{AreDistinct, HttpMade, UdpMade, new-Made}
use influxdb_relay.Relay.Config.Backends.{IsSettings, new_http_backend-IsSettings}

-- Every duration is a second, and all sockets are had.
abbrev sys : Environment
sys = record {
  int_limit = 2147483648;
  parse_duration = λ text. some (pos 1000000000);
  listens = λ bound addr. true;
  sets_read_buffer = λ n. true;
  sends = true;
  resolves = λ location. true;
}

abbrev output : HttpOutputConfig
output = record {
  name = "";
  location = "http://127.0.0.1:8086/write";
  timeout = "";
  buffer_size_mb = pos 100;
  max_batch_kb = pos 50;
  max_delay_interval = "5s";
  skip_tls_verification = false;
}

abbrev http_config : HttpConfig
http_config = record {
  name = "";
  addr = "127.0.0.1:9096";
  ssl_combined_pem = "";
  default_retention_policy = "";
  outputs = output ∷ [];
}

abbrev udp_config : String → UdpConfig
udp_config name = record {
  name = name;
  addr = "127.0.0.1:9096";
  precision = "u";
  read_buffer = pos 0;
  outputs = record { name = "local"; location = "127.0.0.1:8089"; mtu = pos 0 } ∷ [];
}

abbrev config : Config
config = record { http_relays = http_config ∷ []; udp_relays = udp_config "" ∷ [] }

abbrev settings : RetrySettings
settings = record { size = pos 104857600; batch = pos 51200; max_interval = pos 1000000000 }

abbrev backend : HttpBackend
backend = record {
  name = "http://127.0.0.1:8086/write";
  location = "http://127.0.0.1:8086/write";
  timeout = pos 10000000000;
  skip_tls_verification = false;
  retry = some settings;
}

made_backend : new_http_backend sys output ≡ some backend
unfolding new_http_backend with_timeout with_settings retry_settings with_interval duration_or
    batch_size to_int
made_backend = refl

abbrev service : Service
service =
    (
      "http://127.0.0.1:9096",
      http (record {
        addr = "127.0.0.1:9096";
        name = "";
        schema = "http";
        cert = "";
        rp = "";
        backends = backend ∷ [];
      }),
    )
    ∷ (
      "127.0.0.1:9096",
      udp (record {
        addr = "127.0.0.1:9096";
        name = "";
        precision = "u";
        backends = record { name = "local"; location = "127.0.0.1:8089"; mtu = pos 1024 } ∷ [];
      }),
    )
    ∷ []

made : new sys config ≡ ok service
unfolding new after_http add_http_relays add_udp_relays register is_taken name_of new_udp
    with_udp_backends new_udp_backends add_udp_backend new_udp_backend udp_mtu new_http
    with_backends new_http_backends add_backend new_http_backend with_timeout with_settings
    retry_settings with_interval duration_or batch_size to_int
made = refl

-- A UDP relay may not have the name that the HTTP relay goes by.
not_made :
    new sys (record config { udp_relays = udp_config "http://127.0.0.1:9096" ∷ [] })
    ≡ err (duplicate "http://127.0.0.1:9096")
unfolding new after_http add_http_relays add_udp_relays register is_taken name_of new_udp
    with_udp_backends new_udp_backends add_udp_backend new_udp_backend udp_mtu new_http
    with_backends new_http_backends add_backend new_http_backend with_timeout with_settings
    retry_settings with_interval duration_or batch_size to_int
not_made = refl

new-Made_example :
    AreDistinct service
    × ((hs : Service) × (us : Service) × (service ≡ hs ++ us)
        × HttpMade sys config.http_relays hs
        × UdpMade sys [] config.udp_relays us)
new-Made_example = new-Made sys config service made

new_http_backend-IsSettings_example : IsSettings sys output settings
new_http_backend-IsSettings_example =
    new_http_backend-IsSettings sys output backend settings (omega arith) (omega arith) made_backend
      refl
