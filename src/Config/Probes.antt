-- ===== src/Config/Probes.antt =====
-- internal/config/config.go: the settings of the probes, and the waits and sizes of the measurements, a part of `Load`.
use vless_sub_server.Base.{◌*◌, ◌^◌, Bool, true, ◌||◌, not, arith}
use vless_sub_server.Base.Int.{ℤ, pos, ◌≤ℤ◌, ltb_ℤ}
use vless_sub_server.Base.Text.{text}
use vless_sub_server.Base.Clock.{Duration, minute}
use vless_sub_server.Base.Result.{Result, ok, ◌>>=◌}
use vless_sub_server.Config.{
  Library, Env, ConfigError, second, millisecond, hour, int_env, int64_env, duration_env, bool_env,
  demand, Ensures, holds, then_any, then_demand,
}

pub record ProbeSettings : Type 0 where
  pub max_concurrent : ℤ
  pub probe_sample_count : ℤ
  pub refresh_interval : Duration
  pub dns_timeout : Duration
  pub dns_cache_ttl : Duration

unfoldable pub load_probe : Library → Env → Result ConfigError ProbeSettings
load_probe lib env =
    demand (λ v. ltb_ℤ v (pos 1)) (text "MAX_CONCURRENT must be positive")
      (int_env lib env (text "MAX_CONCURRENT") (pos 50))
    >>= λ max_concurrent.
        demand (λ v. ltb_ℤ v (pos 1) || ltb_ℤ (pos 10) v)
          (text "PROBE_SAMPLE_COUNT must be between 1 and 10")
          (int_env lib env (text "PROBE_SAMPLE_COUNT") (pos 5))
        >>= λ probe_sample_count.
            duration_env lib env (text "REFRESH_INTERVAL") (pos (30 * minute))
            >>= λ refresh_interval.
                duration_env lib env (text "DNS_TIMEOUT") (pos (2 * second)) >>= λ dns_timeout.
                duration_env lib env (text "DNS_CACHE_TTL") (pos (10 * minute)) >>= λ dns_cache_ttl.
                ok (record {
                  max_concurrent = max_concurrent;
                  probe_sample_count = probe_sample_count;
                  refresh_interval = refresh_interval;
                  dns_timeout = dns_timeout;
                  dns_cache_ttl = dns_cache_ttl;
                })

pub record AreProbeBounds (s : ProbeSettings) : Type 0 where
  pub max_concurrent_bounds : pos 1 ≤ℤ s.max_concurrent
  pub probe_sample_count_bounds : (pos 1 ≤ℤ s.probe_sample_count) × (s.probe_sample_count ≤ℤ pos 10)

pub load_probe-Ensures : (lib : Library) (env : Env) → Ensures AreProbeBounds (load_probe lib env)
unfolding load_probe
load_probe-Ensures lib env = then_demand _ _ _ _ (λ max_concurrent max_concurrent_h.
    then_demand _ _ _ _ (λ probe_sample_count probe_sample_count_h.
      then_any (duration_env lib env (text "REFRESH_INTERVAL") (pos (30 * minute))) _
        (λ refresh_interval.
          then_any (duration_env lib env (text "DNS_TIMEOUT") (pos (2 * second))) _ (λ dns_timeout.
            then_any (duration_env lib env (text "DNS_CACHE_TTL") (pos (10 * minute))) _
              (λ dns_cache_ttl. holds (record {
                max_concurrent_bounds = ground arith;
                probe_sample_count_bounds = ground arith;
              }))))))

pub record SampleSettings : Type 0 where
  pub exit_probe_timeout : Duration
  pub probe_sample_gap : Duration
  pub probe_sample_timeout : Duration

unfoldable pub load_sample : Library → Env → Result ConfigError SampleSettings
load_sample lib env =
    demand (λ v. not (ltb_ℤ (pos 0) v)) (text "EXIT_PROBE_TIMEOUT must be positive")
      (duration_env lib env (text "EXIT_PROBE_TIMEOUT") (pos (12 * second)))
    >>= λ exit_probe_timeout.
        demand (λ v. ltb_ℤ v (pos 0) || ltb_ℤ (pos (2 * second)) v)
          (text "PROBE_SAMPLE_GAP must be between 0 and 2s")
          (duration_env lib env (text "PROBE_SAMPLE_GAP") (pos (100 * millisecond)))
        >>= λ probe_sample_gap.
            demand (λ v. not (ltb_ℤ (pos 0) v)) (text "PROBE_SAMPLE_TIMEOUT must be positive")
              (duration_env lib env (text "PROBE_SAMPLE_TIMEOUT") (pos (5 * second)))
            >>= λ probe_sample_timeout. ok (record {
              exit_probe_timeout = exit_probe_timeout;
              probe_sample_gap = probe_sample_gap;
              probe_sample_timeout = probe_sample_timeout;
            })

pub record AreSampleBounds (s : SampleSettings) : Type 0 where
  pub exit_probe_timeout_bounds : pos 1 ≤ℤ s.exit_probe_timeout
  pub probe_sample_gap_bounds :
      (pos 0 ≤ℤ s.probe_sample_gap) × (s.probe_sample_gap ≤ℤ pos (2 * second))
  pub probe_sample_timeout_bounds : pos 1 ≤ℤ s.probe_sample_timeout

pub load_sample-Ensures :
    (lib : Library) (env : Env) → Ensures AreSampleBounds (load_sample lib env)
unfolding load_sample
load_sample-Ensures lib env = then_demand _ _ _ _ (λ exit_probe_timeout exit_probe_timeout_h.
    then_demand _ _ _ _ (λ probe_sample_gap probe_sample_gap_h.
      then_demand _ _ _ _ (λ probe_sample_timeout probe_sample_timeout_h. holds (record {
        exit_probe_timeout_bounds = ground arith;
        probe_sample_gap_bounds = ground arith;
        probe_sample_timeout_bounds = ground arith;
      }))))

pub record WaitSettings : Type 0 where
  pub bandwidth_timeout : Duration
  pub bandwidth_refresh_after : Duration
  pub bandwidth_retry_after : Duration
  pub source_stale_max_age : Duration
  pub country_reprobe_interval : Duration

unfoldable pub load_wait : Library → Env → Result ConfigError WaitSettings
load_wait lib env =
    demand (λ v. not (ltb_ℤ (pos 0) v)) (text "BANDWIDTH_TIMEOUT must be positive")
      (duration_env lib env (text "BANDWIDTH_TIMEOUT") (pos (8 * second)))
    >>= λ bandwidth_timeout.
        demand (λ v. not (ltb_ℤ (pos 0) v)) (text "BANDWIDTH_REFRESH_AFTER must be positive")
          (duration_env lib env (text "BANDWIDTH_REFRESH_AFTER") (pos (2 * hour)))
        >>= λ bandwidth_refresh_after.
            demand (λ v. not (ltb_ℤ (pos 0) v)) (text "BANDWIDTH_RETRY_AFTER must be positive")
              (duration_env lib env (text "BANDWIDTH_RETRY_AFTER") (pos (30 * minute)))
            >>= λ bandwidth_retry_after.
                demand (λ v. not (ltb_ℤ (pos 0) v)) (text "SOURCE_STALE_MAX_AGE must be positive")
                  (duration_env lib env (text "SOURCE_STALE_MAX_AGE") (pos (6 * hour)))
                >>= λ source_stale_max_age.
                    demand (λ v. not (ltb_ℤ (pos 0) v))
                      (text "COUNTRY_REPROBE_INTERVAL must be positive")
                      (duration_env lib env (text "COUNTRY_REPROBE_INTERVAL") (pos (5 * minute)))
                    >>= λ country_reprobe_interval. ok (record {
                      bandwidth_timeout = bandwidth_timeout;
                      bandwidth_refresh_after = bandwidth_refresh_after;
                      bandwidth_retry_after = bandwidth_retry_after;
                      source_stale_max_age = source_stale_max_age;
                      country_reprobe_interval = country_reprobe_interval;
                    })

pub record AreWaitBounds (s : WaitSettings) : Type 0 where
  pub bandwidth_timeout_bounds : pos 1 ≤ℤ s.bandwidth_timeout
  pub bandwidth_refresh_after_bounds : pos 1 ≤ℤ s.bandwidth_refresh_after
  pub bandwidth_retry_after_bounds : pos 1 ≤ℤ s.bandwidth_retry_after
  pub source_stale_max_age_bounds : pos 1 ≤ℤ s.source_stale_max_age
  pub country_reprobe_interval_bounds : pos 1 ≤ℤ s.country_reprobe_interval

pub load_wait-Ensures : (lib : Library) (env : Env) → Ensures AreWaitBounds (load_wait lib env)
unfolding load_wait
load_wait-Ensures lib env = then_demand _ _ _ _ (λ bandwidth_timeout bandwidth_timeout_h.
    then_demand _ _ _ _ (λ bandwidth_refresh_after bandwidth_refresh_after_h.
      then_demand _ _ _ _ (λ bandwidth_retry_after bandwidth_retry_after_h.
        then_demand _ _ _ _ (λ source_stale_max_age source_stale_max_age_h.
          then_demand _ _ _ _ (λ country_reprobe_interval country_reprobe_interval_h.
            holds (record {
              bandwidth_timeout_bounds = ground arith;
              bandwidth_refresh_after_bounds = ground arith;
              bandwidth_retry_after_bounds = ground arith;
              source_stale_max_age_bounds = ground arith;
              country_reprobe_interval_bounds = ground arith;
            }))))))

pub record BandwidthSettings : Type 0 where
  pub bandwidth_bytes : ℤ
  pub bandwidth_budget : ℤ
  pub bandwidth_enabled : Bool

unfoldable pub load_bandwidth : Library → Env → Result ConfigError BandwidthSettings
load_bandwidth lib env =
    demand (λ v. ltb_ℤ v (pos (64 * 2 ^ 10)) || ltb_ℤ (pos (8 * 2 ^ 20)) v)
      (text "BANDWIDTH_BYTES must be between 64KiB and 8MiB")
      (int64_env lib env (text "BANDWIDTH_BYTES") (pos (1 * 2 ^ 20)))
    >>= λ bandwidth_bytes.
        demand (λ v. ltb_ℤ v bandwidth_bytes || ltb_ℤ (pos (32 * 2 ^ 20)) v)
          (text "BANDWIDTH_BUDGET_BYTES must be between one probe and 32MiB")
          (int64_env lib env (text "BANDWIDTH_BUDGET_BYTES") (pos (32 * 2 ^ 20)))
        >>= λ bandwidth_budget.
            bool_env lib env (text "BANDWIDTH_ENABLED") (true) >>= λ bandwidth_enabled. ok (record {
              bandwidth_bytes = bandwidth_bytes;
              bandwidth_budget = bandwidth_budget;
              bandwidth_enabled = bandwidth_enabled;
            })

pub record AreBandwidthBounds (s : BandwidthSettings) : Type 0 where
  pub bandwidth_bytes_bounds :
      (pos (64 * 2 ^ 10) ≤ℤ s.bandwidth_bytes) × (s.bandwidth_bytes ≤ℤ pos (8 * 2 ^ 20))
  pub bandwidth_budget_bounds :
      (s.bandwidth_bytes ≤ℤ s.bandwidth_budget) × (s.bandwidth_budget ≤ℤ pos (32 * 2 ^ 20))

pub load_bandwidth-Ensures :
    (lib : Library) (env : Env) → Ensures AreBandwidthBounds (load_bandwidth lib env)
unfolding load_bandwidth
load_bandwidth-Ensures lib env = then_demand _ _ _ _ (λ bandwidth_bytes bandwidth_bytes_h.
    then_demand _ _ _ _ (λ bandwidth_budget bandwidth_budget_h.
      then_any (bool_env lib env (text "BANDWIDTH_ENABLED") (true)) _ (λ bandwidth_enabled.
        holds (record {
          bandwidth_bytes_bounds = ground arith;
          bandwidth_budget_bounds = ground arith;
        }))))
