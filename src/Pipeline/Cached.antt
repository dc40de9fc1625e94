-- ===== src/Pipeline/Cached.antt =====
-- internal/pipeline/pipeline.go: the published data, and how it is rebuilt when evidence changes.
-- The formatters of internal/format are an interface of their own.
use vless_sub_server.Base.{
  ℕ, Bool, true, false, ◌&&◌, List, [], ◌∷◌, length, Option, none, some, if◌then◌else◌, ltb,
}
use vless_sub_server.Base.Int.{ℤ}
use vless_sub_server.Base.Text.{Text}
use vless_sub_server.Base.Clock.{Time}
use vless_sub_server.Country.Evidence.{RouteCountries, needs_warp_reprobe}
use vless_sub_server.Parse.Record.{ProxyRecord, is_set}
use vless_sub_server.Quality.Identity.{Library, identity}
use vless_sub_server.Quality.Runtime.{Runtime, Store, get}
use vless_sub_server.Rename.{RenamedEntry}

-- internal/ipintel/ipintel.go; `F` is the type of float64.
pub record Flags : Type 0 where
  pub proxy : Bool
  pub vpn : Bool
  pub tor : Bool
  pub abuser : Bool
  pub datacenter : Bool
  pub crawler : Bool

pub record Intel (F : Type 0) : Type 0 where
  pub ip : Text
  pub asn : Text
  pub organization : Text
  pub isp : Text
  pub country_code : Text
  pub city : Text
  pub type : Text
  pub risk_level : Text
  pub risk_score : F
  pub flags : Flags
  pub sources : List Text
  pub checked_at : Time

-- internal/servicecheck/servicecheck.go
pub record ServiceResult : Type 0 where
  pub service : Text
  pub status : Text
  pub region : Text
  pub reason : Text
  pub detail : Text

-- internal/portcheck/portcheck.go
pub record PortResult : Type 0 where
  pub port : ℤ
  pub status : Text

-- internal/dnsbl/dnsbl.go
pub record DnsblResult : Type 0 where
  pub zone : Text
  pub name : Text
  pub listed : Bool
  pub return_code : Text
  pub status : Text

-- internal/format/format.go
pub record FormatMetadata : Type 0 where
  pub total_fetched : ℕ
  pub total_parsed : ℕ
  pub total_skipped : ℕ
  pub total_duplicates : ℕ
  pub total_alive : ℕ
  pub total_dead : ℕ
  pub sources_ok : ℕ
  pub sources_failed : ℕ
  pub geo_available : ℕ
  pub geo_total : ℕ

-- internal/format/xrayjson.go; `unset` is the zero value of the string type.
pub data RoutingProfile : Type 0 where
  unset russia without_rules : RoutingProfile

-- `FormatOutput`, which prints the time of the call, and the three other formatters, with the options
-- for WARP and the routing profile.
pub record Formatters : Type 0 where
  pub output : Time → List RenamedEntry → FormatMetadata → Text
  pub xray_json : List RenamedEntry → FormatMetadata → Bool → RoutingProfile → Text
  pub singbox_json : List RenamedEntry → FormatMetadata → Bool → RoutingProfile → Text
  pub clash_yaml : List RenamedEntry → FormatMetadata → Bool → RoutingProfile → Text

pub record CachedEntry (F : Type 0) : Type 0 where
  pub entry : RenamedEntry
  pub warp_entry : RenamedEntry
  pub countries : RouteCountries
  pub direct_healthy : Bool
  pub warp_healthy : Bool
  pub intel : Option (Intel F)
  pub warp_intel : Option (Intel F)
  pub services : List ServiceResult
  pub warp_services : List ServiceResult
  pub port_results : List PortResult
  pub warp_port_results : List PortResult
  pub dnsbl_results : List DnsblResult
  pub warp_dnsbl_results : List DnsblResult

pub record CachedData (F : Type 0) : Type 0 where
  pub output : Text
  pub json_output : Text
  pub entries : List (CachedEntry F)
  pub metadata : FormatMetadata
  pub last_refresh : Time

module _ {F : Type 0} (lib : Library) where
  -- An entry with what the store knows of its route.
  unfoldable pub refreshed : Option (Runtime F) → CachedEntry F → CachedEntry F
  refreshed none c = c
  refreshed (some r) c = record c {
    countries = r.countries;
    direct_healthy = r.direct_healthy;
    warp_healthy = r.warp_healthy;
  }

  abbrev pub runtime_of : Store F → CachedEntry F → Option (Runtime F)
  runtime_of store c = get (identity lib c.entry.entry) store

  -- The entries of the loop in `rebuildCachedCountries`, and those that it appends for each route. An
  -- entry without a runtime is kept as it is, and appended to neither.
  abbrev is_direct : Option (Runtime F) → Bool
  is_direct none = false
  is_direct (some r) = r.direct_healthy

  abbrev is_warp : Option (Runtime F) → Bool
  is_warp none = false
  is_warp (some r) = r.warp_healthy

  unfoldable pub rebuild_entries : Store F → List (CachedEntry F) → List (CachedEntry F)
  unfolding refreshed
  rebuild_entries store [] = []
  rebuild_entries store (c ∷ cs) = refreshed (runtime_of store c) c ∷ rebuild_entries store cs

  unfoldable pub rebuild_direct : Store F → List (CachedEntry F) → List RenamedEntry
  rebuild_direct store [] = []
  rebuild_direct store (c ∷ cs) =
      let rest = rebuild_direct store cs in
      if is_direct (runtime_of store c) then c.entry ∷ rest else rest

  unfoldable pub rebuild_warp : Store F → List (CachedEntry F) → List RenamedEntry
  rebuild_warp store [] = []
  rebuild_warp store (c ∷ cs) =
      let rest = rebuild_warp store cs in
      let entry = if is_set c.warp_entry.entry.protocol then c.warp_entry else c.entry in
      if is_warp (runtime_of store c) then entry ∷ rest else rest

  -- `rebuildCachedCountries`, called at the time `now`: the data that it stores.
  unfoldable pub rebuild_cached_countries :
      Formatters → Time → Store F → CachedData F → CachedData F
  unfolding rebuild_entries rebuild_direct rebuild_warp
  rebuild_cached_countries fmt now store cached =
      let direct = rebuild_direct store cached.entries in
      let warp = rebuild_warp store cached.entries in
      record {
        entries = rebuild_entries store cached.entries;
        metadata = cached.metadata;
        output = fmt.output now direct (record (cached.metadata) { total_alive = length direct });
        json_output =
            fmt.xray_json warp (record (cached.metadata) { total_alive = length warp }) true russia;
        last_refresh = cached.last_refresh;
      }

  unfoldable pub select_warp_reprobe_candidates : List (CachedEntry F) → List ProxyRecord
  select_warp_reprobe_candidates [] = []
  select_warp_reprobe_candidates (c ∷ cs) =
      let rest = select_warp_reprobe_candidates cs in
      if c.warp_healthy && needs_warp_reprobe c.countries then c.entry.entry ∷ rest else rest

unfoldable pub can_publish : ℕ → Bool
can_publish entry_count = ltb 0 entry_count
