-- ===== src/Pipeline/Background.antt =====
-- internal/pipeline/enrichment.go: what the background checks work on, and how the published entries
-- take up what the caches hold. The text of an address, `netip.Addr.Unmap().String()`, is a parameter.
pub mod Laws
use vless_sub_server.Base.{
  ℕ, ◌-◌, Bool, true, false, ◌&&◌, ◌||◌, not, List, [], ◌∷◌, ◌++◌, length, take, drop, Option, none,
  some, if◌then◌else◌,
}
use vless_sub_server.Base.Text.{Text, text, is_empty, has_prefix, trim_space, split}
use vless_sub_server.Base.Clock.{Time}
use vless_sub_server.Base.Dict.{Dict, lookup, insert, has, Text-eq}
use vless_sub_server.Country.Evidence.{Addr, FamilyResult, RouteCountries, is_valid}
use vless_sub_server.Enrichment.{Cache, State, fresh, stale, missing, get_at, stale_keys_at}
use vless_sub_server.Parse.Record.{ProxyRecord}
use vless_sub_server.Pipeline.Cached.{Intel, PortResult, DnsblResult, CachedEntry, CachedData}
use vless_sub_server.Quality.Identity.{Library, identity}

module _ (show : Addr → Text) where
  family_ip : FamilyResult → FamilyResult → Text
  family_ip first second =
      if first.available && is_valid first.ip
      then show first.ip
      else if second.available && is_valid second.ip
      then show second.ip
      else []

  unfoldable pub direct_exit_ip : RouteCountries → Text
  unfolding family_ip
  direct_exit_ip c = family_ip c.direct_v4 c.direct_v6

  unfoldable pub warp_exit_ip : RouteCountries → Text
  unfolding family_ip
  warp_exit_ip c = family_ip c.warp_v4 c.warp_v6

-- The local function `add`, where the set `seen` is that of the addresses in `result`.
unfoldable pub add_exit_ip : Text → List Text → List Text
add_exit_ip ip result = if is_empty ip || has ip result then result else result ++ ip ∷ []

-- `if healthy { add(ip) }`
unfoldable pub add_if : Bool → Text → List Text → List Text
add_if true ip result = add_exit_ip ip result
add_if false ip result = result

module _ {F : Type 0} (show : Addr → Text) where
  -- The body of the loop.
  unfoldable pub add_exits : CachedEntry F → List Text → List Text
  add_exits c result =
      add_if c.warp_healthy (warp_exit_ip show c.countries)
        (add_if c.direct_healthy (direct_exit_ip show c.countries) result)

  unfoldable pub collect_exits : List (CachedEntry F) → List Text → List Text
  unfolding add_exits
  collect_exits [] result = result
  collect_exits (c ∷ cs) result = collect_exits cs (add_exits c result)

  unfoldable pub unique_healthy_exit_ips : List (CachedEntry F) → List Text
  unfolding collect_exits
  unique_healthy_exit_ips entries = collect_exits entries []

-- The records of the healthy routes, `limit` of them at most.
module _ {F : Type 0} (lib : Library) where
  pool_from : List Text → List (CachedEntry F) → List ProxyRecord
  pool_from seen [] = []
  pool_from seen (c ∷ cs) =
      let skipped = pool_from seen cs in
      let key = identity lib c.entry.entry in
      let taken = c.entry.entry ∷ pool_from (key ∷ seen) cs in
      if not (c.direct_healthy || c.warp_healthy) || has key seen then skipped else taken

  -- The loop stops when it has `limit` records; the limit is positive where it is called.
  unfoldable pub healthy_pool_records : List (CachedEntry F) → ℕ → List ProxyRecord
  unfolding pool_from
  healthy_pool_records entries limit = take limit (pool_from [] entries)

pub record EnrichmentNeeds : Type 0 where
  pub intel : Bool
  pub ports : Bool
  pub dnsbl : Bool

abbrev pub no_needs : EnrichmentNeeds
no_needs = record { intel = false; ports = false; dnsbl = false }

abbrev pub needs_of : Text → Dict Text EnrichmentNeeds → EnrichmentNeeds
needs_of ip needs = elim (lookup ip needs) [ none ↦ no_needs | some n ↦ n ]

-- The local variables `needs` and `ordered`; an address is a key of the map if it is in `ordered`.
pub record Todo : Type 0 where
  pub needs : Dict Text EnrichmentNeeds
  pub ordered : List Text

-- The local function `add`.
unfoldable pub add_needs : (EnrichmentNeeds → EnrichmentNeeds) → List Text → Todo → Todo
add_needs apply [] t = t
add_needs apply (ip ∷ keys) t = add_needs apply keys (record {
  needs = insert ip (apply (needs_of ip t.needs)) t.needs;
  ordered = if has ip t.ordered then t.ordered else t.ordered ++ ip ∷ [];
})

-- `if enabled { add(keys, apply) }`
unfoldable pub add_when : Bool → (EnrichmentNeeds → EnrichmentNeeds) → List Text → Todo → Todo
add_when true apply keys t = add_needs apply keys t
add_when false apply keys t = t

-- The caches, `none` for the nil pointer, with the switches of the configuration (and whether the
-- lookup is set).
pub record Checkers (F : Type 0) : Type 0 where
  pub intel_enabled : Bool
  pub ports_enabled : Bool
  pub dnsbl_enabled : Bool
  pub intel_cache : Option (Cache (Intel F))
  pub port_cache : Option (Cache (List PortResult))
  pub dnsbl_cache : Option (Cache (List DnsblResult))

abbrev is_there : {A : Type 0} → Option A → Bool
is_there none = false
is_there (some a) = true

module _ {F : Type 0} (p : Checkers F) where
  unfoldable pub add_stale : List Text → Time → Todo
  add_stale ips now =
      add_when (p.dnsbl_enabled && is_there p.dnsbl_cache) (λ n. record n { dnsbl = true })
        (stale_keys_at p.dnsbl_cache ips now)
        (add_when (p.ports_enabled && is_there p.port_cache) (λ n. record n { ports = true })
          (stale_keys_at p.port_cache ips now)
          (add_when (p.intel_enabled && is_there p.intel_cache) (λ n. record n { intel = true })
            (stale_keys_at p.intel_cache ips now) (record { needs = []; ordered = [] })))

  -- `ordered[:p.cfg.EnrichmentCheckBatchSize]`
  unfoldable pub batch : ℕ → List Text → Time → List Text
  unfolding add_stale
  batch size ips now = take size (add_stale ips now).ordered

  -- `cachedIntel`, and the same for the two other caches.
  unfoldable pub cached_intel : Text → Time → Option (Intel F)
  cached_intel ip now = (get_at p.intel_cache ip now).0

abbrev or_nil : {A : Type 0} → Option (List A) → List A
or_nil none = []
or_nil (some xs) = xs

module _ {F : Type 0} (p : Checkers F) where
  unfoldable pub cached_ports : Text → Time → List PortResult
  cached_ports ip now = or_nil (get_at p.port_cache ip now).0

  unfoldable pub cached_dnsbl : Text → Time → List DnsblResult
  cached_dnsbl ip now = or_nil (get_at p.dnsbl_cache ip now).0

  module _ (show : Addr → Text) where
    unfoldable pub enriched : Time → CachedEntry F → CachedEntry F
    enriched now c =
        let direct = direct_exit_ip show c.countries in
        let warp = warp_exit_ip show c.countries in
        record c {
          intel = cached_intel p direct now;
          warp_intel = cached_intel p warp now;
          port_results = cached_ports direct now;
          warp_port_results = cached_ports warp now;
          dnsbl_results = cached_dnsbl direct now;
          warp_dnsbl_results = cached_dnsbl warp now;
        }

    unfoldable pub enrich_all : Time → List (CachedEntry F) → List (CachedEntry F)
    unfolding enriched
    enrich_all now [] = []
    enrich_all now (c ∷ cs) = enriched now c ∷ enrich_all now cs

    -- The data that `refreshCachedEnrichment` stores.
    unfoldable pub refresh_cached_enrichment : Time → CachedData F → CachedData F
    unfolding enrich_all
    refresh_cached_enrichment now cached = record cached { entries = enrich_all now cached.entries }

-- The loop over `checked`: which of the checks have run.
unfoldable pub completed : Dict Text EnrichmentNeeds → List Text → EnrichmentNeeds
completed needs [] = no_needs
completed needs (ip ∷ ips) =
    let todo = needs_of ip needs in
    let rest = completed needs ips in
    record {
      intel = todo.intel || rest.intel;
      ports = todo.ports || rest.ports;
      dnsbl = todo.dnsbl || rest.dnsbl;
    }

unfoldable pub mark_checks_completed :
    Dict Text EnrichmentNeeds → List Text → Time → Dict Text Time → Dict Text Time
unfolding completed
mark_checks_completed needs checked at runs =
    let done = completed needs checked in
    let r₁ = if done.intel then insert (text "ipintel") at runs else runs in
    let r₂ = if done.ports then insert (text "port") at r₁ else r₁ in
    if done.dnsbl then insert (text "dnsbl") at r₂ else r₂

trace_line : Text → List Text → Text
trace_line prefix [] = []
trace_line prefix (l ∷ ls) =
    let rest = trace_line prefix ls in
    if has_prefix l prefix then trim_space (drop (length prefix) l) else rest

unfoldable pub trace_value : Text → Text → Text
unfolding trace_line
trace_value body key = trace_line (key ++ text "=") (split b'\n' body)
