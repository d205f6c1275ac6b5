-- ===== src/Relay/Config/Backends.antt =====
-- The sizes of the retry buffers that a configuration gives.
use influxdb_relay.Base.{
  ◌<◌, ◌%◌, ℕ, zero, suc, ◌*◌, ◌≤◌, ◌≡◌, refl, ◌∙◌, sym, ap, String, Option, none, some, arith,
  Option-cases, inl, inr,
}
use influxdb_relay.Base.Decimal.{ℤ, pos, negsuc}
use influxdb_relay.Relay.Config.{
  HttpOutputConfig, RetrySettings, HttpBackend, Environment, to_int, kb, mb,
  default_max_delay_interval,
}
use influxdb_relay.Relay.Config.Make.{
  batch_size, duration_or, with_interval, retry_settings, with_settings, with_timeout,
  new_http_backend,
}

-- What fits into an int is held as it is.
to_int-small : (limit n : ℕ) → n < limit → to_int limit n ≡ pos n
unfolding to_int
to_int-small limit n h = let whole : n % (2 * limit) ≡ n = grind arith in rw whole (ground arith)

-- The bytes that a number of KB asks for, or the default.
abbrev pub batch_bytes : ℤ → ℕ
batch_bytes (pos zero) = 524288
batch_bytes (pos (suc n)) = suc n * kb
batch_bytes (negsuc n) = 524288

batch_size-bytes :
    (limit : ℕ) (n : ℤ) → batch_bytes n < limit → batch_size limit n ≡ pos (batch_bytes n)
unfolding batch_size
batch_size-bytes limit (pos zero) h = refl
batch_size-bytes limit (pos (suc n)) h = to_int-small limit (suc n * kb) h
batch_size-bytes limit (negsuc n) h = refl

-- The bytes of a buffer of a number of MB.
abbrev pub size_bytes : ℤ → ℕ
size_bytes (pos n) = n * mb
size_bytes (negsuc n) = 0

module _ (sys : Environment) where
  -- The settings of a buffer whose size is a positive number of MB.
  abbrev pub IsSettings : HttpOutputConfig → RetrySettings → Type 0
  IsSettings cfg r =
      (mb ≤ size_bytes cfg.buffer_size_mb)
      × (r.size ≡ pos (size_bytes cfg.buffer_size_mb))
      × (r.batch ≡ pos (batch_bytes cfg.max_batch_kb))
      × (duration_or sys default_max_delay_interval cfg.max_delay_interval ≡ some r.max_interval)

  settings_of :
      (size batch : ℤ) (interval : String) (r : RetrySettings)
      → size_bytes size < sys.int_limit
      → batch_bytes batch < sys.int_limit
      → retry_settings sys size batch interval ≡ some (some r)
      → (mb ≤ size_bytes size)
        × (r.size ≡ pos (size_bytes size))
        × (r.batch ≡ pos (batch_bytes batch))
        × (duration_or sys default_max_delay_interval interval ≡ some r.max_interval)
  unfolding retry_settings with_interval
  settings_of (pos zero) batch interval r fits few e = ground arith
  settings_of (negsuc n) batch interval r fits few e = ground arith
  settings_of (pos (suc n)) batch interval r fits few e =
      elim (Option-cases (duration_or sys default_max_delay_interval interval)) [
        | inl bad ↦ ground arith
        | inr (max, good) ↦
            let s : r.size ≡ to_int sys.int_limit (suc n * mb) = ground arith in
            let b : r.batch ≡ batch_size sys.int_limit batch = ground arith in
            let i : r.max_interval ≡ max = ground arith in
            (
              omega arith,
              s ∙ to_int-small sys.int_limit (suc n * mb) fits,
              b ∙ batch_size-bytes sys.int_limit batch few,
              good ∙ ap some (sym i),
            )
      ]

  settings_in :
      (cfg : HttpOutputConfig) (timeout : ℤ) (o : Option (Option RetrySettings)) (b : HttpBackend)
      (r : RetrySettings)
      → with_settings cfg timeout o ≡ some b
      → b.retry ≡ some r
      → o ≡ some (some r)
  unfolding with_settings
  settings_in cfg timeout none b r e h = ground arith
  settings_in cfg timeout (some retry) b r e h = ground arith

  timeout_in :
      (cfg : HttpOutputConfig) (o : Option ℤ) (b : HttpBackend) (r : RetrySettings)
      → with_timeout sys cfg o ≡ some b
      → b.retry ≡ some r
      → retry_settings sys cfg.buffer_size_mb cfg.max_batch_kb cfg.max_delay_interval
        ≡ some (some r)
  unfolding with_timeout
  timeout_in cfg none b r e h = ground arith
  timeout_in cfg (some t) b r e h = settings_in cfg t _ b r e h

  -- For sizes in bytes that an int can hold: a backend has a retry buffer only where its size is a positive
  -- number of MB; the buffer has that size, its batches the given number of KB or 512 KB where none is
  -- given, and its longest interval is the one that is given, which parses, or 10 s.
  pub new_http_backend-IsSettings :
      (cfg : HttpOutputConfig) (b : HttpBackend) (r : RetrySettings)
      → size_bytes cfg.buffer_size_mb < sys.int_limit
      → batch_bytes cfg.max_batch_kb < sys.int_limit
      → new_http_backend sys cfg ≡ some b
      → b.retry ≡ some r
      → IsSettings cfg r
  unfolding new_http_backend
  new_http_backend-IsSettings cfg b r fits few e h =
      settings_of cfg.buffer_size_mb cfg.max_batch_kb cfg.max_delay_interval r fits few
        (timeout_in cfg _ b r e h)
