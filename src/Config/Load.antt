-- ===== src/Config/Load.antt =====
-- internal/config/config.go: `Load` as a whole. The fields of the struct `Config` stand in groups, in
-- the order in which `Load` reads them.
use vless_sub_server.Base.{Bool, true, if◌then◌else◌, not}
use vless_sub_server.Base.Text.{Text, text, is_empty}
use vless_sub_server.Base.Result.{Result, ok, ◌>>=◌}
use vless_sub_server.Config.{
  Library, Env, ConfigError, bool_env, Ensures, holds, then_any, then_ensured,
}
use vless_sub_server.Config.Sources.{SourceSettings, load_source}
use vless_sub_server.Config.Services.{
  IntelSettings, load_intel, AreIntelBounds, load_intel-Ensures, ServiceSettings, load_service,
  AreServiceBounds, load_service-Ensures,
}
use vless_sub_server.Config.Checks.{
  CheckSettings, load_check, AreCheckBounds, load_check-Ensures, EnrichmentSettings,
  load_enrichment, AreEnrichmentBounds, load_enrichment-Ensures,
}
use vless_sub_server.Config.Probes.{
  ProbeSettings, load_probe, AreProbeBounds, load_probe-Ensures, SampleSettings, load_sample,
  AreSampleBounds, load_sample-Ensures, WaitSettings, load_wait, AreWaitBounds, load_wait-Ensures,
  BandwidthSettings, load_bandwidth, AreBandwidthBounds, load_bandwidth-Ensures,
}
use vless_sub_server.Config.Sources.Laws.{AreSourceBounds, load_source-Ensures}

pub record Config : Type 0 where
  pub source : SourceSettings
  pub intel : IntelSettings
  pub service : ServiceSettings
  pub check : CheckSettings
  pub enrichment : EnrichmentSettings
  pub probe : ProbeSettings
  pub sample : SampleSettings
  pub wait : WaitSettings
  pub country_state_path : Text
  pub cache_state_path : Text
  pub exit_observer_url : Text
  pub bandwidth : BandwidthSettings
  pub fetch_proxy_fallback : Bool
  pub geo_dat_dir : Text

-- `if value := os.Getenv(name); value != "" { field = value }`
unfoldable pub text_env : Env → Text → Text → Text
text_env env name fallback = if not (is_empty (env name)) then env name else fallback

unfoldable pub load : Library → Env → Result ConfigError Config
unfolding text_env
load lib env = load_source lib env >>= λ source. load_intel lib env >>= λ intel.
    load_service lib env >>= λ service. load_check lib env >>= λ check.
    load_enrichment lib env >>= λ enrichment. load_probe lib env >>= λ probe.
    load_sample lib env >>= λ sample. load_wait lib env >>= λ wait.
    load_bandwidth lib env >>= λ bandwidth.
    bool_env lib env (text "FETCH_PROXY_FALLBACK") true >>= λ fetch_proxy_fallback. ok (record {
      source = source;
      intel = intel;
      service = service;
      check = check;
      enrichment = enrichment;
      probe = probe;
      sample = sample;
      wait = wait;
      country_state_path = env (text "COUNTRY_STATE_PATH");
      cache_state_path = env (text "CACHE_STATE_PATH");
      exit_observer_url =
          text_env env (text "EXIT_OBSERVER_URL") (text "https://exit-observer.hypcat.net/_exit");
      bandwidth = bandwidth;
      fetch_proxy_fallback = fetch_proxy_fallback;
      geo_dat_dir = text_env env (text "GEO_DAT_DIR") (text "/usr/local/share/xray");
    })

-- The bounds of a configuration, group by group.
pub record AreBounds (c : Config) : Type 0 where
  pub of_source : AreSourceBounds c.source
  pub of_intel : AreIntelBounds c.intel
  pub of_service : AreServiceBounds c.service
  pub of_check : AreCheckBounds c.check
  pub of_enrichment : AreEnrichmentBounds c.enrichment
  pub of_probe : AreProbeBounds c.probe
  pub of_sample : AreSampleBounds c.sample
  pub of_wait : AreWaitBounds c.wait
  pub of_bandwidth : AreBandwidthBounds c.bandwidth

-- Whatever the environment holds, a configuration that `Load` returns is within its bounds: there is
-- a source and an identity, the port of the metrics is one or 0, the counts, timeouts, intervals and
-- lifetimes that it checks are positive, at most ten samples are taken with gaps of at most two
-- seconds, and a bandwidth probe takes at least 64 KiB and no more than the budget, which is at most
-- 32 MiB.
pub load-Ensures : (lib : Library) (env : Env) → Ensures AreBounds (load lib env)
unfolding load
load-Ensures lib env = then_ensured _ (load_source-Ensures lib env) (λ source of_source.
    then_ensured _ (load_intel-Ensures lib env) (λ intel of_intel.
      then_ensured _ (load_service-Ensures lib env) (λ service of_service.
        then_ensured _ (load_check-Ensures lib env) (λ check of_check.
          then_ensured _ (load_enrichment-Ensures lib env) (λ enrichment of_enrichment.
            then_ensured _ (load_probe-Ensures lib env) (λ probe of_probe.
              then_ensured _ (load_sample-Ensures lib env) (λ sample of_sample.
                then_ensured _ (load_wait-Ensures lib env) (λ wait of_wait.
                  then_ensured _ (load_bandwidth-Ensures lib env) (λ bandwidth of_bandwidth.
                    then_any (bool_env lib env (text "FETCH_PROXY_FALLBACK") true) _
                      (λ fetch_proxy_fallback. holds (record {
                        of_source = of_source;
                        of_intel = of_intel;
                        of_service = of_service;
                        of_check = of_check;
                        of_enrichment = of_enrichment;
                        of_probe = of_probe;
                        of_sample = of_sample;
                        of_wait = of_wait;
                        of_bandwidth = of_bandwidth;
                      })))))))))))
