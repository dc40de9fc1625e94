-- ===== src/Quality/Runtime.antt =====
-- internal/quality/runtime.go and metrics.go: what is kept for each route, and the store of it. `F`
-- is the type of float64.
use vless_sub_server.Base.{ℕ, Bool, List, map, Option}
use vless_sub_server.Base.Text.{Text}
use vless_sub_server.Base.Clock.{Time}
use vless_sub_server.Base.Dict.{Dict, lookup, insert, Text-eq}
use vless_sub_server.Country.Evidence.{RouteCountries}
use vless_sub_server.Quality.State.{State, RuntimeState}

-- internal/geo/geo.go
pub record GeoInfo : Type 0 where
  pub country_code : Text
  pub city : Text
  pub isp : Text
  pub ip : Text

pub record Metrics (F : Type 0) : Type 0 where
  pub sample_count : ℕ
  pub success_count : ℕ
  pub geo_ok : Bool
  pub internet_reachable : Bool
  pub request_latency_ms : F
  pub min_latency_ms : F
  pub max_latency_ms : F
  pub failure_pct : F
  pub jitter_ms : F
  pub blackhole : Bool
  pub download_mbps : F
  pub bandwidth_measured : Bool
  pub bandwidth_fresh : Bool

pub record Runtime (F : Type 0) : Type 0 where
  pub key : Text
  pub state : State
  pub reachable : Bool
  pub direct_healthy : Bool
  pub warp_healthy : Bool
  pub labels : Dict Text Text
  pub metrics : Metrics F
  pub raw_score : F
  pub score_ewma : F
  pub has_score : Bool
  pub state_data : RuntimeState
  pub last_bandwidth_attempt_at : Time
  pub last_bandwidth_success_at : Time
  pub last_successful_at : Time
  pub geo_info : Option GeoInfo
  pub warp_geo_info : Option GeoInfo
  pub countries : RouteCountries

-- The store's map. The copies of `Labels` are copies of values here.
abbrev pub Store : Type 0 → Type 0
Store F = Dict Text (Runtime F)

module _ {F : Type 0} where
  abbrev pub set : Runtime F → Store F → Store F
  set r s = insert r.key r s

  abbrev pub get : Text → Store F → Option (Runtime F)
  get key s = lookup key s

  -- The order of the entries is that of the map's iteration: none is promised.
  abbrev pub snapshot : Store F → List (Runtime F)
  snapshot s = map (λ e. e.1) s
