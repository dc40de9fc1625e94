-- ===== src/Pipeline/Publish.antt =====
-- internal/pipeline/pipeline.go, the end of `Refresh`: the entries get their names and become the
-- published data.
pub mod Laws
use vless_sub_server.Base.{
  ℕ, ◌+◌, ◌-◌, Bool, true, false, List, [], ◌∷◌, map, length, Option, none, some, if◌then◌else◌,
}
use vless_sub_server.Base.Text.{Text}
use vless_sub_server.Base.Clock.{Time}
use vless_sub_server.Country.Evidence.{RouteCountries}
use vless_sub_server.Fetch.Sources.{FetchResult, is_ok}
use vless_sub_server.Parse.Record.{ProxyRecord}
use vless_sub_server.Quality.Identity.{Library, identity}
use vless_sub_server.Quality.Runtime.{GeoInfo, Runtime, Store, get}
use vless_sub_server.Rename.{RenamedEntry, Named, rename_all}
use vless_sub_server.Pipeline.Cached.{
  Intel, ServiceResult, PortResult, DnsblResult, FormatMetadata, Formatters, russia, CachedEntry,
  CachedData, can_publish,
}

pub record OutputEntry (F : Type 0) : Type 0 where
  pub entry : ProxyRecord
  pub geo : Option GeoInfo
  pub warp_geo : Option GeoInfo
  pub is_lan : Bool
  pub countries : RouteCountries
  pub intel : Option (Intel F)
  pub warp_intel : Option (Intel F)
  pub services : List ServiceResult
  pub warp_services : List ServiceResult
  pub port_results : List PortResult
  pub warp_port_results : List PortResult
  pub dnsbl_results : List DnsblResult
  pub warp_dnsbl_results : List DnsblResult

unfoldable pub count_ok : List FetchResult → ℕ
unfolding is_ok
count_ok [] = 0
count_ok (r ∷ rs) = if is_ok r then count_ok rs + 1 else count_ok rs

module _ {F : Type 0} (lib : Library) where
  abbrev pub named : OutputEntry F → Named
  named e = record { entry = e.entry; geo = e.geo; is_lan = e.is_lan }

  abbrev pub warp_named : OutputEntry F → Named
  warp_named e = record { entry = e.entry; geo = e.warp_geo; is_lan = e.is_lan }

  -- `runtime, _ := p.runtime.Get(...)`: without a runtime both flags are false.
  abbrev pub direct_of : Option (Runtime F) → Bool
  direct_of none = false
  direct_of (some r) = r.direct_healthy

  abbrev pub warp_of : Option (Runtime F) → Bool
  warp_of none = false
  warp_of (some r) = r.warp_healthy

  -- One cached entry. The clones of the source are copies of values here.
  unfoldable pub cached_entry :
      Store F → OutputEntry F → RenamedEntry → RenamedEntry → CachedEntry F
  cached_entry store e renamed warp_renamed =
      let runtime = get (identity lib e.entry) store in
      record {
        entry = renamed;
        warp_entry = warp_renamed;
        countries = e.countries;
        direct_healthy = direct_of runtime;
        warp_healthy = warp_of runtime;
        intel = e.intel;
        warp_intel = e.warp_intel;
        services = e.services;
        warp_services = e.warp_services;
        port_results = e.port_results;
        warp_port_results = e.warp_port_results;
        dnsbl_results = e.dnsbl_results;
        warp_dnsbl_results = e.warp_dnsbl_results;
      }

  -- The three lists of the source run in parallel.
  unfoldable pub cached_entries :
      Store F → List (OutputEntry F) → List RenamedEntry → List RenamedEntry → List (CachedEntry F)
  unfolding cached_entry
  cached_entries store (e ∷ es) (n ∷ ns) (w ∷ ws) =
      cached_entry store e n w ∷ cached_entries store es ns ws
  cached_entries store _ _ _ = []

  unfoldable pub direct_entries :
      Store F → List (OutputEntry F) → List RenamedEntry → List RenamedEntry
  direct_entries store (e ∷ es) (n ∷ ns) =
      let rest = direct_entries store es ns in
      if direct_of (get (identity lib e.entry) store) then n ∷ rest else rest
  direct_entries store _ _ = []

  unfoldable pub warp_entries :
      Store F → List (OutputEntry F) → List RenamedEntry → List RenamedEntry
  warp_entries store (e ∷ es) (w ∷ ws) =
      let rest = warp_entries store es ws in
      if warp_of (get (identity lib e.entry) store) then w ∷ rest else rest
  warp_entries store _ _ = []

  -- From `renameInput` to `p.cache.Store`. `counts` holds the counts of lines, records and deaths;
  -- `started` is the `now` of `Refresh`, `now` the time at which the formatter runs.
  unfoldable pub publish :
      Formatters
      → Time
      → Time
      → FormatMetadata
      → List FetchResult
      → Store F
      → List (OutputEntry F)
      → CachedData F
  unfolding cached_entries direct_entries warp_entries count_ok
  publish fmt started now counts fetched store entries =
      let renamed = rename_all lib (map named entries) in
      let warp_renamed = rename_all lib (map warp_named entries) in
      let direct = direct_entries store entries renamed in
      let warp = warp_entries store entries warp_renamed in
      let ok = count_ok fetched in
      let meta = record counts {
        total_alive = length renamed;
        sources_ok = ok;
        sources_failed = length fetched - ok;
      } in
      record {
        entries = cached_entries store entries renamed warp_renamed;
        metadata = meta;
        output = fmt.output now direct (record meta { total_alive = length direct });
        json_output = fmt.xray_json warp (record meta { total_alive = length warp }) true russia;
        last_refresh = started;
      }

  -- The data in the cache after the end of `Refresh`, and whether it was published.
  unfoldable pub publish_if_any :
      Formatters
      → Time
      → Time
      → FormatMetadata
      → List FetchResult
      → Store F
      → List (OutputEntry F)
      → Option (CachedData F)
      → Option (CachedData F) × Bool
  unfolding publish can_publish
  publish_if_any fmt started now counts fetched store entries cache =
      if can_publish (length entries)
      then (some (publish fmt started now counts fetched store entries), true)
      else (cache, false)
