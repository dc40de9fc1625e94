-- ===== src/Services.antt =====
-- internal/servicecheck/cache.go: the results of the service checks of each route, which go stale
-- one by one. `none` for a cache is the nil pointer.
pub mod Laws
use vless_sub_server.Base.{
  ◌≡◌, ◌↔◌, ℕ, ◌+◌, Bool, true, false, ◌&&◌, ◌||◌, not, List, [], ◌∷◌, ◌++◌, map, Option, none,
  some, arith, if◌then◌else◌,
}
use vless_sub_server.Base.Text.{Text, is_empty, text_eq, text_ltb}
use vless_sub_server.Base.Text.Laws.{text_eq_iff}
use vless_sub_server.Base.Clock.{Time, Duration, within}
use vless_sub_server.Base.Sort.{sort}
use vless_sub_server.Base.Dict.{Eq, Dict, lookup, insert, has, Text-eq}
use vless_sub_server.Enrichment.{is_off, Candidate, is_before}
use vless_sub_server.Pipeline.Cached.{ServiceResult}

pub record RouteKey : Type 0 where
  pub route : Text
  pub ip : Text

unfoldable pub same_route : RouteKey → RouteKey → Bool
same_route a b = text_eq a.route b.route && text_eq a.ip b.ip

pub same_route_iff : (a b : RouteKey) → (same_route a b ≡ true) ↔ (a ≡ b)
unfolding same_route
same_route_iff a b = ground (arith, text_eq_iff a.route b.route, text_eq_iff a.ip b.ip)

instance abbrev pub RouteKey-eq : Eq RouteKey
RouteKey-eq = record { beq = same_route; beq_iff = same_route_iff }

pub data CacheState : Type 0 where
  cache_fresh cache_stale cache_missing : CacheState

pub record CachedResult : Type 0 where
  pub result : ServiceResult
  pub state : CacheState

pub record ServiceCoverage : Type 0 where
  pub eligible : ℕ
  pub fresh : ℕ
  pub stale : ℕ
  pub missing : ℕ

pub record ServiceEntry : Type 0 where
  pub result : ServiceResult
  pub checked_at : Time

pub record ServiceCache : Type 0 where
  pub ttl : Duration
  pub entries : Dict RouteKey (Dict Text ServiceEntry)

abbrev pub new_service_cache : Duration → ServiceCache
new_service_cache ttl = record { ttl = ttl; entries = [] }

-- `c.entries[key]`: a missing map is read like an empty one.
abbrev pub by_service : ServiceCache → RouteKey → Dict Text ServiceEntry
by_service c key = elim (lookup key c.entries) [ none ↦ [] | some m ↦ m ]

unfoldable pub set_result_at :
    Option ServiceCache → RouteKey → ServiceResult → Time → Option ServiceCache
set_result_at none key result checked_at = none
set_result_at (some c) key result checked_at =
    let entry : ServiceEntry = record { result = result; checked_at = checked_at } in
    if is_off c.ttl || (is_empty key.route || (is_empty key.ip || is_empty result.service))
    then some c
    else some (record c {
      entries = insert key (insert result.service entry (by_service c key)) c.entries;
    })

-- `now.Sub(entry.checkedAt) < c.ttl`
abbrev pub is_current : ServiceCache → Time → ServiceEntry → Bool
is_current c now e = within now e.checked_at c.ttl

unfoldable pub cached_result : ServiceCache → Time → Text × ServiceEntry → CachedResult
cached_result c now (service, e) = record {
  result = e.result;
  state = if not (is_current c now e) then cache_stale else cache_fresh;
}

unfoldable pub results_at : Option ServiceCache → RouteKey → Time → List CachedResult
unfolding cached_result
results_at none key now = []
results_at (some c) key now =
    if is_off c.ttl
    then []
    else sort (λ a b. text_ltb a.result.service b.result.service)
        (map (cached_result c now) (by_service c key))

-- What one service adds to the candidates; they are those of internal/enrichment/cache.go.
unfoldable pub consider_service : ServiceCache → Text → Option ServiceEntry → Time → List Candidate
consider_service c service none now = record { key = service; missing = true; checked_at = 0 } ∷ []
consider_service c service (some e) now =
    if not (is_current c now e)
    then record { key = service; missing = false; checked_at = e.checked_at } ∷ []
    else []

unfoldable pub service_candidates :
    ServiceCache → Dict Text ServiceEntry → Time → List Text → List Candidate
unfolding consider_service
service_candidates c m now [] = []
service_candidates c m now (service ∷ services) =
    consider_service c service (lookup service m) now ++ service_candidates c m now services

unfoldable pub stale_services_at : Option ServiceCache → RouteKey → List Text → Time → List Text
unfolding service_candidates is_before
stale_services_at none key services now = services
stale_services_at (some c) key services now =
    map (λ x. x.key) (sort is_before (service_candidates c (by_service c key) now services))

abbrev pub is_fresh_state : CacheState → Bool
is_fresh_state cache_fresh = true
is_fresh_state s = false

-- The map `fresh` of `CoverageAt`.
unfoldable pub fresh_services : List CachedResult → Dict Text Bool → Dict Text Bool
fresh_services [] m = m
fresh_services (r ∷ rs) m = fresh_services rs (insert r.result.service (is_fresh_state r.state) m)

-- `fresh[service]`, false for a missing one.
abbrev pub fresh_at : Text → Dict Text Bool → Bool
fresh_at service m = elim (lookup service m) [ none ↦ false | some b ↦ b ]

unfoldable pub all_fresh : Dict Text Bool → List Text → Bool
all_fresh m [] = true
all_fresh m (service ∷ services) = if not (fresh_at service m) then false else all_fresh m services

-- The end of the loop's body, by the results.
unfoldable pub count_route : List CachedResult → List Text → ServiceCoverage → ServiceCoverage
unfolding fresh_services all_fresh
count_route [] services cov = record cov { missing = cov.missing + 1 }
count_route (r ∷ rs) services cov =
    if all_fresh (fresh_services (r ∷ rs) []) services
    then record cov { fresh = cov.fresh + 1 }
    else record cov { stale = cov.stale + 1 }

unfoldable pub cover_routes :
    Option ServiceCache
    → Time
    → List Text
    → List RouteKey
    → List RouteKey
    → ServiceCoverage
    → ServiceCoverage
unfolding count_route
cover_routes c now services seen [] cov = cov
cover_routes c now services seen (key ∷ keys) cov =
    let skipped = cover_routes c now services seen keys cov in
    let counted =
      cover_routes c now services (key ∷ seen) keys (
        count_route (results_at c key now) services (record cov { eligible = cov.eligible + 1 })) in
    if is_empty key.route || (is_empty key.ip || has key seen) then skipped else counted

unfoldable pub service_coverage_at :
    Option ServiceCache → List RouteKey → List Text → Time → ServiceCoverage
unfolding cover_routes
service_coverage_at c keys services now =
    cover_routes c now services [] keys (record { eligible = 0; fresh = 0; stale = 0; missing = 0 })
