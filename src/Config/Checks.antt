-- ===== src/Config/Checks.antt =====
-- internal/config/config.go: the settings of the checks of ports and block lists, and of their background runs, a part of `Load`.
use vless_sub_server.Base.{◌*◌, Bool, false, not, arith}
use vless_sub_server.Base.Int.{ℤ, pos, ◌≤ℤ◌, ltb_ℤ}
use vless_sub_server.Base.Text.{text}
use vless_sub_server.Base.Clock.{Duration, minute}
use vless_sub_server.Base.Result.{Result, ok, ◌>>=◌}
use vless_sub_server.Config.{
  Library, Env, ConfigError, second, hour, int_env, duration_env, bool_env, demand, Ensures, holds,
  then_any, then_demand,
}

pub record CheckSettings : Type 0 where
  pub port_check_enabled : Bool
  pub port_check_timeout : Duration
  pub port_check_max_concurrent : ℤ
  pub dnsbl_enabled : Bool
  pub dnsbl_timeout : Duration
  pub dnsbl_max_concurrent : ℤ
  pub proxy_check_enabled : Bool
  pub proxy_check_timeout : Duration

unfoldable pub load_check : Library → Env → Result ConfigError CheckSettings
load_check lib env = bool_env lib env (text "PORT_CHECK_ENABLED") (false) >>= λ port_check_enabled.
    demand (λ v. not (ltb_ℤ (pos 0) v)) (text "PORT_CHECK_TIMEOUT must be positive")
      (duration_env lib env (text "PORT_CHECK_TIMEOUT") (pos (3 * second)))
    >>= λ port_check_timeout.
        demand (λ v. ltb_ℤ v (pos 1)) (text "PORT_CHECK_MAX_CONCURRENT must be positive")
          (int_env lib env (text "PORT_CHECK_MAX_CONCURRENT") (pos 4))
        >>= λ port_check_max_concurrent.
            bool_env lib env (text "DNSBL_ENABLED") (false) >>= λ dnsbl_enabled.
            demand (λ v. not (ltb_ℤ (pos 0) v)) (text "DNSBL_TIMEOUT must be positive")
              (duration_env lib env (text "DNSBL_TIMEOUT") (pos (3 * second)))
            >>= λ dnsbl_timeout.
                demand (λ v. ltb_ℤ v (pos 1)) (text "DNSBL_MAX_CONCURRENT must be positive")
                  (int_env lib env (text "DNSBL_MAX_CONCURRENT") (pos 4))
                >>= λ dnsbl_max_concurrent.
                    bool_env lib env (text "PROXYCHECK_ENABLED") (false) >>= λ proxy_check_enabled.
                    demand (λ v. not (ltb_ℤ (pos 0) v)) (text "PROXYCHECK_TIMEOUT must be positive")
                      (duration_env lib env (text "PROXYCHECK_TIMEOUT") (pos (10 * second)))
                    >>= λ proxy_check_timeout. ok (record {
                      port_check_enabled = port_check_enabled;
                      port_check_timeout = port_check_timeout;
                      port_check_max_concurrent = port_check_max_concurrent;
                      dnsbl_enabled = dnsbl_enabled;
                      dnsbl_timeout = dnsbl_timeout;
                      dnsbl_max_concurrent = dnsbl_max_concurrent;
                      proxy_check_enabled = proxy_check_enabled;
                      proxy_check_timeout = proxy_check_timeout;
                    })

pub record AreCheckBounds (s : CheckSettings) : Type 0 where
  pub port_check_timeout_bounds : pos 1 ≤ℤ s.port_check_timeout
  pub port_check_max_concurrent_bounds : pos 1 ≤ℤ s.port_check_max_concurrent
  pub dnsbl_timeout_bounds : pos 1 ≤ℤ s.dnsbl_timeout
  pub dnsbl_max_concurrent_bounds : pos 1 ≤ℤ s.dnsbl_max_concurrent
  pub proxy_check_timeout_bounds : pos 1 ≤ℤ s.proxy_check_timeout

pub load_check-Ensures : (lib : Library) (env : Env) → Ensures AreCheckBounds (load_check lib env)
unfolding load_check
load_check-Ensures lib env =
    then_any (bool_env lib env (text "PORT_CHECK_ENABLED") (false)) _ (λ port_check_enabled.
      then_demand _ _ _ _ (λ port_check_timeout port_check_timeout_h.
        then_demand _ _ _ _ (λ port_check_max_concurrent port_check_max_concurrent_h.
          then_any (bool_env lib env (text "DNSBL_ENABLED") (false)) _ (λ dnsbl_enabled.
            then_demand _ _ _ _ (λ dnsbl_timeout dnsbl_timeout_h.
              then_demand _ _ _ _ (λ dnsbl_max_concurrent dnsbl_max_concurrent_h.
                then_any (bool_env lib env (text "PROXYCHECK_ENABLED") (false)) _
                  (λ proxy_check_enabled.
                    then_demand _ _ _ _ (λ proxy_check_timeout proxy_check_timeout_h.
                      holds (record {
                        port_check_timeout_bounds = ground arith;
                        port_check_max_concurrent_bounds = ground arith;
                        dnsbl_timeout_bounds = ground arith;
                        dnsbl_max_concurrent_bounds = ground arith;
                        proxy_check_timeout_bounds = ground arith;
                      })))))))))

pub record EnrichmentSettings : Type 0 where
  pub enrichment_check_interval : Duration
  pub enrichment_check_batch_size : ℤ
  pub enrichment_check_max_concurrent : ℤ
  pub port_check_cache_ttl : Duration
  pub dnsbl_cache_ttl : Duration
  pub ip_intel_check_place : Bool

unfoldable pub load_enrichment : Library → Env → Result ConfigError EnrichmentSettings
load_enrichment lib env =
    demand (λ v. not (ltb_ℤ (pos 0) v)) (text "ENRICHMENT_CHECK_INTERVAL must be positive")
      (duration_env lib env (text "ENRICHMENT_CHECK_INTERVAL") (pos minute))
    >>= λ enrichment_check_interval.
        demand (λ v. ltb_ℤ v (pos 1)) (text "ENRICHMENT_CHECK_BATCH_SIZE must be positive")
          (int_env lib env (text "ENRICHMENT_CHECK_BATCH_SIZE") (pos 25))
        >>= λ enrichment_check_batch_size.
            demand (λ v. ltb_ℤ v (pos 1)) (text "ENRICHMENT_CHECK_MAX_CONCURRENT must be positive")
              (int_env lib env (text "ENRICHMENT_CHECK_MAX_CONCURRENT") (pos 8))
            >>= λ enrichment_check_max_concurrent.
                demand (λ v. not (ltb_ℤ (pos 0) v)) (text "PORT_CHECK_CACHE_TTL must be positive")
                  (duration_env lib env (text "PORT_CHECK_CACHE_TTL") (pos (6 * hour)))
                >>= λ port_check_cache_ttl.
                    demand (λ v. not (ltb_ℤ (pos 0) v)) (text "DNSBL_CACHE_TTL must be positive")
                      (duration_env lib env (text "DNSBL_CACHE_TTL") (pos (6 * hour)))
                    >>= λ dnsbl_cache_ttl.
                        bool_env lib env (text "IP_INTEL_CHECK_PLACE") (false)
                        >>= λ ip_intel_check_place. ok (record {
                          enrichment_check_interval = enrichment_check_interval;
                          enrichment_check_batch_size = enrichment_check_batch_size;
                          enrichment_check_max_concurrent = enrichment_check_max_concurrent;
                          port_check_cache_ttl = port_check_cache_ttl;
                          dnsbl_cache_ttl = dnsbl_cache_ttl;
                          ip_intel_check_place = ip_intel_check_place;
                        })

pub record AreEnrichmentBounds (s : EnrichmentSettings) : Type 0 where
  pub enrichment_check_interval_bounds : pos 1 ≤ℤ s.enrichment_check_interval
  pub enrichment_check_batch_size_bounds : pos 1 ≤ℤ s.enrichment_check_batch_size
  pub enrichment_check_max_concurrent_bounds : pos 1 ≤ℤ s.enrichment_check_max_concurrent
  pub port_check_cache_ttl_bounds : pos 1 ≤ℤ s.port_check_cache_ttl
  pub dnsbl_cache_ttl_bounds : pos 1 ≤ℤ s.dnsbl_cache_ttl

pub load_enrichment-Ensures :
    (lib : Library) (env : Env) → Ensures AreEnrichmentBounds (load_enrichment lib env)
unfolding load_enrichment
load_enrichment-Ensures lib env =
    then_demand _ _ _ _ (λ enrichment_check_interval enrichment_check_interval_h.
      then_demand _ _ _ _ (λ enrichment_check_batch_size enrichment_check_batch_size_h.
        then_demand _ _ _ _ (λ enrichment_check_max_concurrent enrichment_check_max_concurrent_h.
          then_demand _ _ _ _ (λ port_check_cache_ttl port_check_cache_ttl_h.
            then_demand _ _ _ _ (λ dnsbl_cache_ttl dnsbl_cache_ttl_h.
              then_any (bool_env lib env (text "IP_INTEL_CHECK_PLACE") (false)) _
                (λ ip_intel_check_place. holds (record {
                  enrichment_check_interval_bounds = ground arith;
                  enrichment_check_batch_size_bounds = ground arith;
                  enrichment_check_max_concurrent_bounds = ground arith;
                  port_check_cache_ttl_bounds = ground arith;
                  dnsbl_cache_ttl_bounds = ground arith;
                })))))))
