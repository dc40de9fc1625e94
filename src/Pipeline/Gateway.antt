-- ===== src/Pipeline/Gateway.antt =====
-- internal/pipeline/fetch_fallback.go: the proxies of the pool that fetch a source which direct
-- egress cannot.
pub mod Laws
use vless_sub_server.Base.{
  ℕ, suc, Bool, true, false, ◌||◌, not, List, [], ◌∷◌, Option, none, some, leb, if◌then◌else◌,
}
use vless_sub_server.Base.Text.{Text, text, is_empty}
use vless_sub_server.Base.Dict.{has, Text-eq}
use vless_sub_server.Country.Evidence.{RouteCountries}
use vless_sub_server.Fetch.Sources.{FetchResult, is_ok}
use vless_sub_server.Parse.Record.{ProxyRecord}
use vless_sub_server.Quality.Identity.{Library, identity}
use vless_sub_server.Pipeline.Cached.{CachedEntry, CachedData}

abbrev pub max_gateway_candidates : ℕ
max_gateway_candidates = 6

first_of : List Text → Text
first_of [] = text "unknown"
first_of (c ∷ cs) = if is_empty c then first_of cs else c

unfoldable pub direct_exit_country : RouteCountries → Text
unfolding first_of
direct_exit_country c = first_of (
    c.direct_v4.observed_country ∷ c.direct_v4.country ∷ c.direct_v6.observed_country
    ∷ c.direct_v6.country ∷ [])

module _ {F : Type 0} (lib : Library) where
  -- The loop of `gatewayCandidates`, with `count` records so far: it breaks when, after a record is
  -- added, there are `limit` of them or more.
  unfoldable pub candidates_from :
      ℕ → ℕ → List Text → List Text → List (CachedEntry F) → List ProxyRecord
  candidates_from limit count identities countries [] = []
  candidates_from limit count identities countries (c ∷ cs) =
      let place = direct_exit_country c.countries in
      let key = identity lib c.entry.entry in
      let skipped = candidates_from limit count identities countries cs in
      let more = candidates_from limit (suc count) (key ∷ identities) (place ∷ countries) cs in
      let taken = c.entry.entry ∷ (if leb limit (suc count) then [] else more) in
      if not c.direct_healthy || (has place countries || has key identities) then skipped else taken

  -- The limit is not negative; the only call has `max_gateway_candidates`.
  unfoldable pub gateway_candidates : ℕ → Option (CachedData F) → List ProxyRecord
  unfolding candidates_from
  gateway_candidates limit none = []
  gateway_candidates limit (some data_) = candidates_from limit 0 [] [] data_.entries

-- The loop over the gateway's tags for one source; `fetch` runs one attempt through a tag.
unfoldable pub retry : (Text → Text → FetchResult) → FetchResult → List Text → FetchResult
unfolding is_ok
retry fetch old [] = old
retry fetch old (tag ∷ tags) =
    let rest = retry fetch old tags in if is_ok (fetch tag old.url) then fetch tag old.url else rest

-- The loop over the failed sources.
unfoldable pub retry_failed :
    (Text → Text → FetchResult) → List Text → List FetchResult → List FetchResult
unfolding retry is_ok
retry_failed fetch tags [] = []
retry_failed fetch tags (r ∷ rs) =
    (if is_ok r then r else retry fetch r tags) ∷ retry_failed fetch tags rs
