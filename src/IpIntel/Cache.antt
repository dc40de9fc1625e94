-- ===== src/IpIntel/Cache.antt =====
-- internal/ipintel/cache.go: what is known of an address, for a bounded time. `none` for a cache is
-- the nil pointer; `now` is the time of the call.
pub mod Laws
use vless_sub_server.Base.{
  ◌≡◌, refl, ℕ, ◌+◌, ◌^◌, ◌≤◌, ◌<◌, Bool, true, false, ◌&&◌, ◌||◌, not, List, [], ◌∷◌, length,
  Option, none, some, arith, ltb, if◌then◌else◌, Bool-cases, inl, inr,
}
use vless_sub_server.Base.Int.{pos}
use vless_sub_server.Base.Text.{Text, text_eq}
use vless_sub_server.Base.Text.Laws.{text_eq_iff}
use vless_sub_server.Base.Clock.{Time, Duration, is_after, add}
use vless_sub_server.Base.Dict.{Dict, lookup, insert, lookup-insert, Text-eq}
use vless_sub_server.Enrichment.{is_off}
use vless_sub_server.Pipeline.Cached.{Intel}

pub record CacheEntry (F : Type 0) : Type 0 where
  pub intel : Intel F
  pub expires_at : Time

pub record Cache (F : Type 0) : Type 0 where
  pub ttl : Duration
  pub entries : Dict Text (CacheEntry F)

abbrev pub new_cache : {F : Type 0} → Duration → Cache F
new_cache ttl = record { ttl = ttl; entries = [] }

module _ {F : Type 0} where
  abbrev pub current : Time → Option (CacheEntry F) → Option (Intel F)
  current now none = none
  current now (some e) = if is_after now e.expires_at then none else some e.intel

  unfoldable pub get : Time → Option (Cache F) → Text → Option (Intel F)
  get now none ip = none
  get now (some c) ip = if is_off c.ttl then none else current now (lookup ip c.entries)

  -- The loop that deletes what has expired.
  unfoldable pub sweep : Time → Dict Text (CacheEntry F) → Dict Text (CacheEntry F)
  sweep now [] = []
  sweep now ((key, e) ∷ m) =
      let rest = sweep now m in if is_after now e.expires_at then rest else (key, e) ∷ rest

  unfoldable pub set : Time → Option (Cache F) → Text → Intel F → Option (Cache F)
  unfolding sweep
  set now none ip intel = none
  set now (some c) ip intel =
      let entry : CacheEntry F = record { intel = intel; expires_at = add now c.ttl } in
      let entries = insert ip entry c.entries in
      if is_off c.ttl
      then some c
      else some
          (record c { entries = if ltb 5000 (length entries) then sweep now entries else entries })
