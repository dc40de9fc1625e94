-- ===== src/Pipeline/Probes.antt =====
-- internal/pipeline/pipeline.go: what the probes of a refresh change in the store of runtimes and in
-- the durable country evidence, and which entries come out.
pub mod Laws
use vless_sub_server.Base.{
  ℕ, ◌+◌, ◌*◌, Bool, true, false, ◌&&◌, ◌||◌, not, List, [], ◌∷◌, ◌++◌, Option, none, some, leb,
  ltb, if◌then◌else◌, filter,
}
use vless_sub_server.Base.Text.{Text}
use vless_sub_server.Base.Clock.{Time, Duration, within}
use vless_sub_server.Base.Dict.{Dict, lookup, insert, has, Text-eq}
use vless_sub_server.Country.Evidence as Country
use vless_sub_server.Country.Evidence.{RouteCountries, no_countries, valid, apply}
use vless_sub_server.Parse.Record.{ProxyRecord}
use vless_sub_server.Quality.State.{
  Observation, good, partial, blackhole, RuntimeState, healthy, unset, transition,
  default_state_config,
}
use vless_sub_server.Quality.Runtime.{GeoInfo, Metrics, Runtime, Store, set, get, snapshot}
use vless_sub_server.Quality.Scoring.{Float, number, score, default_alpha}

-- internal/exitprobe/exitprobe.go
pub record ExitProbeResult (F : Type 0) : Type 0 where
  pub exit_ip : Text
  pub exit_loc : Text
  pub geo_info : Option GeoInfo
  pub warp_geo_info : Option GeoInfo
  pub direct_country : Country.Observation
  pub warp_country : Country.Observation
  pub direct_source : Text
  pub warp_source : Text
  pub xray_ok : Bool
  pub metrics : Metrics F

-- The store, and the durable evidence if there is one.
pub record Memory (F : Type 0) : Type 0 where
  pub runtime : Store F
  pub country_state : Option (Dict Text RouteCountries)

-- `dedupHosts`, from the hosts that have been seen.
unfoldable pub dedup_hosts_from : List Text → List ProxyRecord → List Text
dedup_hosts_from seen [] = []
dedup_hosts_from seen (r ∷ rs) =
    let again = dedup_hosts_from seen rs in
    let first = r.host ∷ dedup_hosts_from (r.host ∷ seen) rs in
    if has r.host seen then again else first

unfoldable pub dedup_hosts : List ProxyRecord → List Text
unfolding dedup_hosts_from
dedup_hosts rs = dedup_hosts_from [] rs

-- A map without an entry gives its zero value.
unfoldable pub evidence : Text → Option (Dict Text RouteCountries) → RouteCountries
evidence key none = no_countries
evidence key (some m) = elim (lookup key m) [ none ↦ no_countries | some c ↦ c ]

unfoldable pub remember :
    Text → RouteCountries → Option (Dict Text RouteCountries) → Option (Dict Text RouteCountries)
remember key c none = none
remember key c (some m) = some (insert key c m)

-- A field of the probe that replaces that of the runtime unless it is nil.
abbrev pub newer : {A : Type 0} → Option A → Option A → Option A
newer none old = old
newer (some a) old = some a

unfoldable pub judge : {F : Type 0} → Metrics F → Bool → Bool → Observation
judge m direct warp =
    if leb (m.sample_count * 4) (m.success_count * 5) && ltb 0 m.sample_count
    then good
    else if direct || warp
    then partial
    else blackhole

module _ {F : Type 0} (fl : Float F) where
  abbrev pub no_metrics : Metrics F
  no_metrics = record {
    sample_count = 0;
    success_count = 0;
    geo_ok = false;
    internet_reachable = false;
    request_latency_ms = number fl 0;
    min_latency_ms = number fl 0;
    max_latency_ms = number fl 0;
    failure_pct = number fl 0;
    jitter_ms = number fl 0;
    blackhole = false;
    download_mbps = number fl 0;
    bandwidth_measured = false;
    bandwidth_fresh = false;
  }

  -- `quality.Runtime{}`
  abbrev pub no_runtime : Runtime F
  no_runtime = record {
    key = [];
    state = unset;
    reachable = false;
    direct_healthy = false;
    warp_healthy = false;
    labels = [];
    metrics = no_metrics;
    raw_score = number fl 0;
    score_ewma = number fl 0;
    has_score = false;
    state_data = record {
      state = unset;
      consecutive_blackholes = 0;
      consecutive_good = 0;
      dead_at = 0;
    };
    last_bandwidth_attempt_at = 0;
    last_bandwidth_success_at = 0;
    last_successful_at = 0;
    geo_info = none;
    warp_geo_info = none;
    countries = no_countries;
  }

  -- `previous` of a key, and whether it exists.
  unfoldable pub recall : Text → Memory F → Runtime F
  unfolding evidence
  recall key m = elim (get key m.runtime) [
    | none ↦ record no_runtime { countries = evidence key m.country_state }
    | some r ↦ r
  ]

  -- `state.State = quality.Healthy` for a key that does not exist.
  unfoldable pub old_state : Text → Memory F → RuntimeState
  old_state key m = elim (get key m.runtime) [
    | none ↦ record (no_runtime.state_data) { state = healthy }
    | some r ↦ r.state_data
  ]

  abbrev pub probe_metrics : Option (ExitProbeResult F) → Metrics F
  probe_metrics none = no_metrics
  probe_metrics (some p) = p.metrics

  abbrev pub has_warp : Option (ExitProbeResult F) → Bool
  has_warp none = false
  has_warp (some p) = valid p.warp_country

  -- The metrics with the last measured bandwidth.
  unfoldable pub carry_bandwidth : Duration → Time → Runtime F → Metrics F → Metrics F
  carry_bandwidth refresh_after now previous m =
      if previous.metrics.bandwidth_measured
      then record m {
        download_mbps = previous.metrics.download_mbps;
        bandwidth_measured = true;
        bandwidth_fresh =
            previous.metrics.bandwidth_fresh
            && within now previous.last_bandwidth_success_at refresh_after;
      }
      else m

  -- The block `if directHealthy`.
  unfoldable pub rescore : Duration → Time → Runtime F → Metrics F → Runtime F → Runtime F
  unfolding carry_bandwidth
  rescore refresh_after now previous m r =
      let m' = carry_bandwidth refresh_after now previous m in
      let (raw, average) = score fl m' previous.score_ewma previous.has_score (default_alpha fl) in
      if m.internet_reachable
      then record r {
        metrics = m';
        raw_score = raw;
        score_ewma = average;
        has_score = true;
        last_successful_at = now;
      }
      else r

  -- The places and countries that the probe has seen.
  unfoldable pub take_probe : Time → Option (ExitProbeResult F) → Runtime F → Runtime F
  take_probe now none r = r
  take_probe now (some p) r = record r {
    geo_info = newer p.geo_info r.geo_info;
    warp_geo_info = newer p.warp_geo_info r.warp_geo_info;
    countries = apply (apply r.countries false p.direct_country now) true p.warp_country now;
  }

  -- The runtime that `updateRuntime` stores.
  unfoldable pub next_runtime :
      Duration → Text → Option (ExitProbeResult F) → Time → Memory F → Runtime F
  unfolding recall old_state judge rescore take_probe
  next_runtime refresh_after key probe now m =
      let previous = recall key m in
      let metrics = probe_metrics probe in
      let direct = metrics.internet_reachable in
      let warp = has_warp probe in
      let state =
        transition (old_state key m) (judge metrics direct warp) now default_state_config in
      take_probe now probe (
        rescore refresh_after now previous metrics (record previous {
          key = key;
          state = state.state;
          state_data = state;
          direct_healthy = direct;
          warp_healthy = warp;
          reachable = direct || warp;
        }))

  -- `refresh_after` is `cfg.BandwidthRefreshAfter`.
  unfoldable pub update_runtime :
      Duration → Text → Option (ExitProbeResult F) → Time → Memory F → Memory F
  unfolding next_runtime remember
  update_runtime refresh_after key probe now m =
      let r = next_runtime refresh_after key probe now m in
      record { runtime = set r m.runtime; country_state = remember key r.countries m.country_state }

  unfoldable pub update_bandwidth : Text → F → Time → Store F → Store F
  update_bandwidth key mbps now store = elim (get key store) [
    | none ↦ store
    | some r ↦
        let metrics = record (r.metrics) {
          download_mbps = mbps;
          bandwidth_measured = true;
          bandwidth_fresh = true;
        } in
        let r' = record r { metrics = metrics; last_bandwidth_success_at = now } in
        let (raw, average) = score fl metrics r.score_ewma true (default_alpha fl) in
        set (if r.has_score then record r' { raw_score = raw; score_ewma = average } else r') store
  ]

  unfoldable pub mark_bandwidth_attempt : Text → Time → Store F → Store F
  mark_bandwidth_attempt key now store = elim (get key store) [
    | none ↦ store
    | some r ↦ set (record r { last_bandwidth_attempt_at = now }) store
  ]

  -- `active` holds the keys of this refresh.
  unfoldable pub active_runtime : List Text → Store F → List (Runtime F)
  active_runtime active store = filter (λ r. has r.key active) (snapshot store)

  unfoldable pub has_reachability_witness : List (Option (ExitProbeResult F)) → Bool
  has_reachability_witness [] = false
  has_reachability_witness (none ∷ ps) = has_reachability_witness ps
  has_reachability_witness (some p ∷ ps) =
      if p.metrics.internet_reachable || valid p.warp_country
      then true
      else has_reachability_witness ps
