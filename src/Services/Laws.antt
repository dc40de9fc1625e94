-- ===== src/Services/Laws.antt =====
-- internal/servicecheck/cache.go: which services are due for a check of a route, and what the
-- coverage counts.
use mathlib.Core.List.{map-append}
use vless_sub_server.Base.{
  ◌+◌, ◌≡◌, refl, ◌∙◌, Bool, false, ◌&&◌, ◌||◌, not, List, [], ◌∷◌, map, length, Option, none, some,
  arith, if◌then◌else◌,
}
use vless_sub_server.Base.Text.{Text, is_empty, text_eq}
use vless_sub_server.Base.Text.Laws.{text_eq_iff}
use vless_sub_server.Base.Clock.{Time}
use vless_sub_server.Base.Dict.{Dict, lookup, has, has-append, has-map-sort, Text-eq}
use vless_sub_server.Enrichment.{Candidate, is_before}
use vless_sub_server.Services.{
  RouteKey, RouteKey-eq, ServiceCache, ServiceEntry, ServiceCoverage, CachedResult, by_service,
  is_current, results_at, consider_service, service_candidates, stale_services_at, count_route,
  cover_routes, service_coverage_at,
}

-- Whether the result of a service may still be used.
abbrev pub is_usable : ServiceCache → Time → Option ServiceEntry → Bool
is_usable c now none = false
is_usable c now (some e) = is_current c now e

has-consider_service :
    (q service : Text) (c : ServiceCache) (o : Option ServiceEntry) (now : Time)
    → has q (map (λ x. x.key) (consider_service c service o now))
      ≡ (text_eq service q && not (is_usable c now o))
unfolding consider_service
has-consider_service q service c none now = ground arith
has-consider_service q service c (some e) now = ground arith

has-service_candidates :
    (q : Text) (c : ServiceCache) (m : Dict Text ServiceEntry) (now : Time) (services : List Text)
    → has q (map (λ x. x.key) (service_candidates c m now services))
      ≡ (has q services && not (is_usable c now (lookup q m)))
unfolding service_candidates
has-service_candidates q c m now [] = ground arith
has-service_candidates q c m now (service ∷ services) = ground (
  arith,
  map-append (λ (x : Candidate). x.key) (consider_service c service (lookup service m) now)
      (service_candidates c m now services),
  has-append q (map (λ x. x.key) (consider_service c service (lookup service m) now))
      (map (λ x. x.key) (service_candidates c m now services)),
  has-consider_service q service c (lookup service m) now,
  has-service_candidates q c m now services,
  text_eq_iff service q,
)

-- The services that are due for a route are exactly the given ones without a result that is young
-- enough.
has-stale_services_at :
    (c : ServiceCache) (key : RouteKey) (services : List Text) (now : Time) (q : Text)
    → has q (stale_services_at (some c) key services now)
      ≡ (has q services && not (is_usable c now (lookup q (by_service c key))))
unfolding stale_services_at
has-stale_services_at c key services now q =
    has-map-sort (λ x. x.key) is_before q (service_candidates c (by_service c key) now services)
    ∙ has-service_candidates q c (by_service c key) now services

-- The route keys that are counted.
abbrev pub routes : List RouteKey → List RouteKey → List RouteKey
routes seen [] = []
routes seen (key ∷ keys) =
    let skipped = routes seen keys in
    let counted = key ∷ routes (key ∷ seen) keys in
    if is_empty key.route || (is_empty key.ip || has key seen) then skipped else counted

count_route_sums :
    (rs : List CachedResult) (services : List Text) (cov : ServiceCoverage)
    → ((count_route rs services cov).eligible ≡ cov.eligible)
      × ((count_route rs services cov).fresh
            + (count_route rs services cov).stale
            + (count_route rs services cov).missing
          ≡ cov.fresh + cov.stale + cov.missing + 1)
unfolding count_route
count_route_sums [] services cov = (refl, omega arith)
count_route_sums (r ∷ rs) services cov = ground arith

cover_routes_sums :
    (c : Option ServiceCache) (now : Time) (services : List Text) (seen keys : List RouteKey)
    (cov : ServiceCoverage)
    → let cov' = cover_routes c now services seen keys cov in
      (cov'.eligible ≡ cov.eligible + length (routes seen keys))
      × (cov'.fresh + cov'.stale + cov'.missing
          ≡ cov.fresh + cov.stale + cov.missing + length (routes seen keys))
unfolding cover_routes
cover_routes_sums c now services seen [] cov = omega arith
cover_routes_sums c now services seen (key ∷ keys) cov =
    let counted = record cov { eligible = cov.eligible + 1 } in
    ground (
      arith,
      count_route_sums (results_at c key now) services counted,
      cover_routes_sums c now services seen keys cov,
      cover_routes_sums c now services (key ∷ seen) keys
          (count_route (results_at c key now) services counted),
    )

-- Every distinct route with a name and an address is counted once as eligible, and once as fresh,
-- stale or missing.
service_coverage_at_counts :
    (c : Option ServiceCache) (keys : List RouteKey) (services : List Text) (now : Time)
    → let cov = service_coverage_at c keys services now in
      (cov.eligible ≡ length (routes [] keys))
      × (cov.fresh + cov.stale + cov.missing ≡ cov.eligible)
unfolding service_coverage_at
service_coverage_at_counts c keys services now = omega (
  arith,
  cover_routes_sums c now services [] keys
      (record { eligible = 0; fresh = 0; stale = 0; missing = 0 }),
)
