-- ===== src/Config/Services.antt =====
-- internal/config/config.go: the settings of the reputations and of the service checks, a part of `Load`.
use vless_sub_server.Base.{◌*◌, Bool, true, false, not, arith}
use vless_sub_server.Base.Int.{ℤ, pos, ◌≤ℤ◌, ltb_ℤ}
use vless_sub_server.Base.Text.{Text, text}
use vless_sub_server.Base.Clock.{Duration, minute}
use vless_sub_server.Base.Result.{Result, ok, ◌>>=◌}
use vless_sub_server.Config.{
  Library, Env, ConfigError, second, hour, int_env, duration_env, bool_env, demand, Ensures, holds,
  then_any, then_demand,
}

pub record IntelSettings : Type 0 where
  pub ip_intel_enabled : Bool
  pub ip_intel_timeout : Duration
  pub ip_intel_cache_ttl : Duration
  pub ip_intel_max_concurrent : ℤ
  pub ip_intel_proxy_url : Text

unfoldable pub load_intel : Library → Env → Result ConfigError IntelSettings
load_intel lib env = bool_env lib env (text "IP_INTEL_ENABLED") (true) >>= λ ip_intel_enabled.
    demand (λ v. not (ltb_ℤ (pos 0) v)) (text "IP_INTEL_TIMEOUT must be positive")
      (duration_env lib env (text "IP_INTEL_TIMEOUT") (pos (8 * second)))
    >>= λ ip_intel_timeout.
        demand (λ v. not (ltb_ℤ (pos 0) v)) (text "IP_INTEL_CACHE_TTL must be positive")
          (duration_env lib env (text "IP_INTEL_CACHE_TTL") (pos (6 * hour)))
        >>= λ ip_intel_cache_ttl.
            demand (λ v. ltb_ℤ v (pos 1)) (text "IP_INTEL_MAX_CONCURRENT must be positive")
              (int_env lib env (text "IP_INTEL_MAX_CONCURRENT") (pos 8))
            >>= λ ip_intel_max_concurrent. ok (record {
              ip_intel_enabled = ip_intel_enabled;
              ip_intel_timeout = ip_intel_timeout;
              ip_intel_cache_ttl = ip_intel_cache_ttl;
              ip_intel_max_concurrent = ip_intel_max_concurrent;
              ip_intel_proxy_url = env (text "IP_INTEL_PROXY_URL");
            })

pub record AreIntelBounds (s : IntelSettings) : Type 0 where
  pub ip_intel_timeout_bounds : pos 1 ≤ℤ s.ip_intel_timeout
  pub ip_intel_cache_ttl_bounds : pos 1 ≤ℤ s.ip_intel_cache_ttl
  pub ip_intel_max_concurrent_bounds : pos 1 ≤ℤ s.ip_intel_max_concurrent

pub load_intel-Ensures : (lib : Library) (env : Env) → Ensures AreIntelBounds (load_intel lib env)
unfolding load_intel
load_intel-Ensures lib env =
    then_any (bool_env lib env (text "IP_INTEL_ENABLED") (true)) _ (λ ip_intel_enabled.
      then_demand _ _ _ _ (λ ip_intel_timeout ip_intel_timeout_h.
        then_demand _ _ _ _ (λ ip_intel_cache_ttl ip_intel_cache_ttl_h.
          then_demand _ _ _ _ (λ ip_intel_max_concurrent ip_intel_max_concurrent_h. holds (record {
            ip_intel_timeout_bounds = ground arith;
            ip_intel_cache_ttl_bounds = ground arith;
            ip_intel_max_concurrent_bounds = ground arith;
          })))))

pub record ServiceSettings : Type 0 where
  pub service_check_enabled : Bool
  pub service_check_timeout : Duration
  pub service_check_max_concurrent : ℤ
  pub service_check_per_target_concurrent : ℤ
  pub service_check_interval : Duration
  pub service_check_batch_size : ℤ
  pub service_check_cache_ttl : Duration

unfoldable pub load_service : Library → Env → Result ConfigError ServiceSettings
load_service lib env =
    bool_env lib env (text "SERVICE_CHECK_ENABLED") (false) >>= λ service_check_enabled.
    demand (λ v. not (ltb_ℤ (pos 0) v)) (text "SERVICE_CHECK_TIMEOUT must be positive")
      (duration_env lib env (text "SERVICE_CHECK_TIMEOUT") (pos (10 * second)))
    >>= λ service_check_timeout.
        demand (λ v. ltb_ℤ v (pos 1)) (text "SERVICE_CHECK_MAX_CONCURRENT must be positive")
          (int_env lib env (text "SERVICE_CHECK_MAX_CONCURRENT") (pos 4))
        >>= λ service_check_max_concurrent.
            demand (λ v. ltb_ℤ v (pos 1))
              (text "SERVICE_CHECK_PER_TARGET_CONCURRENT must be positive")
              (int_env lib env (text "SERVICE_CHECK_PER_TARGET_CONCURRENT") (pos 3))
            >>= λ service_check_per_target_concurrent.
                demand (λ v. not (ltb_ℤ (pos 0) v)) (text "SERVICE_CHECK_INTERVAL must be positive")
                  (duration_env lib env (text "SERVICE_CHECK_INTERVAL") (pos (10 * minute)))
                >>= λ service_check_interval.
                    demand (λ v. ltb_ℤ v (pos 1)) (text "SERVICE_CHECK_BATCH_SIZE must be positive")
                      (int_env lib env (text "SERVICE_CHECK_BATCH_SIZE") (pos 20))
                    >>= λ service_check_batch_size.
                        demand (λ v. not (ltb_ℤ (pos 0) v))
                          (text "SERVICE_CHECK_CACHE_TTL must be positive")
                          (duration_env lib env (text "SERVICE_CHECK_CACHE_TTL") (pos (2 * hour)))
                        >>= λ service_check_cache_ttl. ok (record {
                          service_check_enabled = service_check_enabled;
                          service_check_timeout = service_check_timeout;
                          service_check_max_concurrent = service_check_max_concurrent;
                          service_check_per_target_concurrent = service_check_per_target_concurrent;
                          service_check_interval = service_check_interval;
                          service_check_batch_size = service_check_batch_size;
                          service_check_cache_ttl = service_check_cache_ttl;
                        })

pub record AreServiceBounds (s : ServiceSettings) : Type 0 where
  pub service_check_timeout_bounds : pos 1 ≤ℤ s.service_check_timeout
  pub service_check_max_concurrent_bounds : pos 1 ≤ℤ s.service_check_max_concurrent
  pub service_check_per_target_concurrent_bounds : pos 1 ≤ℤ s.service_check_per_target_concurrent
  pub service_check_interval_bounds : pos 1 ≤ℤ s.service_check_interval
  pub service_check_batch_size_bounds : pos 1 ≤ℤ s.service_check_batch_size
  pub service_check_cache_ttl_bounds : pos 1 ≤ℤ s.service_check_cache_ttl

pub load_service-Ensures :
    (lib : Library) (env : Env) → Ensures AreServiceBounds (load_service lib env)
unfolding load_service
load_service-Ensures lib env =
    then_any (bool_env lib env (text "SERVICE_CHECK_ENABLED") (false)) _ (λ service_check_enabled.
      then_demand _ _ _ _ (λ service_check_timeout service_check_timeout_h.
        then_demand _ _ _ _ (λ service_check_max_concurrent service_check_max_concurrent_h.
          then_demand _ _ _ _
            (λ service_check_per_target_concurrent service_check_per_target_concurrent_h.
              then_demand _ _ _ _ (λ service_check_interval service_check_interval_h.
                then_demand _ _ _ _ (λ service_check_batch_size service_check_batch_size_h.
                  then_demand _ _ _ _ (λ service_check_cache_ttl service_check_cache_ttl_h.
                    holds (record {
                      service_check_timeout_bounds = ground arith;
                      service_check_max_concurrent_bounds = ground arith;
                      service_check_per_target_concurrent_bounds = ground arith;
                      service_check_interval_bounds = ground arith;
                      service_check_batch_size_bounds = ground arith;
                      service_check_cache_ttl_bounds = ground arith;
                    }))))))))
