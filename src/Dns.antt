-- ===== src/Dns.antt =====
-- internal/dns/dns.go: the cache of resolved hosts, and the resolution of a list of hosts through it.
pub mod Laws
use vless_sub_server.Base.{
  ℕ, Bool, true, false, not, List, [], ◌∷◌, Option, none, some, if◌then◌else◌,
}
use vless_sub_server.Base.Text.{Text, is_empty}
use vless_sub_server.Base.Clock.{Time, Duration, is_after, add}
use vless_sub_server.Base.Dict.{Dict, lookup, insert, Text-eq}

pub record DnsResult : Type 0 where
  pub host : Text
  pub ip : Text
  pub is_private : Bool

pub record CacheEntry : Type 0 where
  pub ip : Text
  pub is_private : Bool
  pub expires_at : Time

pub record DnsCache : Type 0 where
  pub entries : Dict Text CacheEntry
  pub ttl : Duration

abbrev pub new_dns_cache : Duration → DnsCache
new_dns_cache ttl = record { entries = []; ttl = ttl }

-- The entry if it may be used at the time `now`.
unfoldable pub unexpired : Time → Option CacheEntry → Option CacheEntry
unexpired now none = none
unexpired now (some e) = if is_after now e.expires_at then none else some e

-- `Get`, called at the time `now`: the address and whether it is private.
unfoldable pub get : Time → Text → DnsCache → Option (Text × Bool)
unfolding unexpired
get now host c = elim (unexpired now (lookup host c.entries)) [
  | none ↦ none
  | some e ↦ some (e.ip, e.is_private)
]

unfoldable pub set : Time → Text → Text → Bool → DnsCache → DnsCache
set now host ip is_private c = record c {
  entries =
      insert host (record { ip = ip; is_private = is_private; expires_at = add now c.ttl })
        c.entries;
}

unfoldable pub purge_entries : Time → Dict Text CacheEntry → Dict Text CacheEntry
purge_entries now [] = []
purge_entries now ((host, e) ∷ m) =
    let rest = purge_entries now m in if is_after now e.expires_at then rest else (host, e) ∷ rest

unfoldable pub purge : Time → DnsCache → DnsCache
unfolding purge_entries
purge now c = record c { entries = purge_entries now c.entries }

-- The first loop of `ResolveHosts`, at the time `now`: the results from the cache, and the other
-- hosts.
unfoldable pub split_hosts : Time → DnsCache → List Text → Dict Text DnsResult × List Text
split_hosts now c [] = ([], [])
split_hosts now c (h ∷ hs) =
    let (results, uncached) = split_hosts now c hs in
    elim (get now h c) [
      | none ↦ (results, h ∷ uncached)
      | some (ip, is_private) ↦
          (insert h (record { host = h; ip = ip; is_private = is_private }) results, uncached)
    ]

-- The variables that the goroutines share under their lock.
pub record Resolution : Type 0 where
  pub results : Dict Text DnsResult
  pub cache : DnsCache

-- What one goroutine does once `resolveWithRetry` has answered at the time `now`.
unfoldable pub record_answer : Time → Text → Text × Bool → Resolution → Resolution
record_answer now h (ip, is_private) r =
    let r' = record r {
      results = insert h (record { host = h; ip = ip; is_private = is_private }) r.results;
    } in
    if is_empty ip then r' else record r' { cache = set now h ip is_private r.cache }

-- The goroutines in the order in which they take the lock, each with the time of its answer.
unfoldable pub record_all : (Text → Text × Bool) → List (Time × Text) → Resolution → Resolution
unfolding record_answer
record_all resolve [] r = r
record_all resolve ((now, h) ∷ rest) r = record_all resolve rest (record_answer now h (resolve h) r)
